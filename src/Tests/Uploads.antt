-- ===== src/Tests/Uploads.antt =====
-- An upload at a concrete form.
use filehub_cloud.Base.{◌++◌, Text, bytes}
use filehub_cloud.Api.Upload.Form.{UploadForm}
use filehub_cloud.Api.Upload.Uploaded.{Uploaded}

abbrev form : UploadForm
form = record {
  file_name = bytes "b.txt";
  file_content_type = bytes "text/plain";
  file_path = bytes "/tmp/1";
  file_md5 = bytes "d9";
  file_size = bytes "12";
  user = bytes "bob";
}

abbrev address : Text
address = bytes "10.0.0.7"

abbrev post_data : Text
post_data =
    bytes "--x\r\nform-data; name=\"file_name\"\r\n\r\nb.txt\r\n"
    ++ (bytes "--x\r\nform-data; name=\"file_content_type\"\r\n\r\ntext/plain\r\n"
        ++ (bytes "--x\r\nform-data; name=\"file_path\"\r\n\r\n/tmp/1\r\n"
            ++ (bytes "--x\r\nform-data; name=\"file_md5\"\r\n\r\nd9\r\n"
                ++ (bytes "--x\r\nform-data; name=\"file_size\"\r\n\r\n12\r\n"
                    ++ bytes "--x\r\nform-data; name=\"user\"\r\n\r\nbob\r\n--x--\r\n"))))
