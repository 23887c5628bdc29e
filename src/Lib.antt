-- ===== src/Lib.antt =====
-- The file server of application/filehub: users own files that FastDFS stores once for each content,
-- share them, save what others share, and delete them. MySQL keeps who owns and shares what, and how
-- many entries refer to a stored file (`file_info.count`); Redis keeps the ranking of shared files, the
-- names of its members, and the tokens; one process-wide lock, FileInfoLock, stands around the changes
-- of the counts; pools hand out the connections to both services.
--
-- Base: lists, texts (lists of byte values) and tests that all files share.
-- Schema (sql/filehub.sql): the rows of the five tables, the statements that the handlers send
--   (`Sql`, one constructor for each text of a statement, with its arguments), what MySQL answers to
--   each and how the tables change, and the counts of references, owners, file rows and entries.
-- Redis: the three keys that the handlers use (strings, the zset FILE_PUBLIC_ZSET, the hash
--   FILE_NAME_HASH), the commands, their answers and effects.
-- Program: a handler as a tree of its calls (`Prog`): a statement, a command, the scoped lock, the
--   removal of a file in FastDFS, a tool that is run in a child process, which may print anything. `crash`
--   is a dereferenced NULL, or what else C++ leaves undefined. The services are a parameter (`Server`)
--   with hypotheses (`IsDocumented`): a statement that is refused changes nothing, one that
--   is granted answers and changes the tables as Schema says, a command that is answered does what
--   Redis says, the lock is granted or its wait runs out. Which of them happens is the server's, so that
--   every failure is among the runs. `Wp` is the weakest precondition over all of them.
--   Program.Granted: the runs against services that grant every call, with their hypotheses
--   (`IsGranting`), for what a handler does when nothing fails. How many preparations failed is counted.
-- Conn: CDBConn, CResultSet and CPrepareStatement (mysql/db_pool.cc), and the commands of CacheConn
--   (redis/cache_pool.cc) that the handlers send. Conn.Transactions: CDBConn::Init and the transactions, over
--   the client library of MySQL.
-- Client: CacheConn with its connection, over any answers of hiredis and the clock (`Link`): Init and
--   DeInit (Client.Connecting), every command (Client.Keys, Hashes, Lists, Sets), the counters of
--   api/api_common.cc (Client.Counts), and calls in any order (Client.Calls).
-- Common: the look-ups of api/api_common.cc, QueryParseKeyValue (Common.Query) and
--   GetFileSuffix (Common.Suffix).
-- Util: URLEncode and URLDecode (Util.Url), CStrExplode (Util.Explode), MemFind (Util.Search), Int2String
--   and String2Int (Util.Numbers), ReplaceStr and ReplaceMark (Util.Replace) of base/util.cc, and
--   CConfigFileReader (Util.Config, base/config_file_reader.cc).
-- Handlers.Share: handleShareFile (api/api_dealfile.cc), handleCancelShareFile and handlePvFile
--   (api/api_deal_sharefile.cc). Each function of the model that is named `after_...` is the rest of
--   the source's function behind the call that its last argument answers.
-- Handlers.Saved: handleSaveFile (api/api_deal_sharefile.cc), handleDealMd5 (api/api_md5.cc),
--   storeFileinfo (api/api_upload.cc).
-- Handlers.Delete: handleDeleteFile and handlePvFile (api/api_dealfile.cc).
-- Handlers.Accounts: verifyUserPassword and setToken (api/api_login.cc), registerUser
--   (api/api_register.cc).
-- Handlers.Pictures: the handlers of api/api_sharepicture.cc. Handlers.Lists: getUserFileList and the
--   counts of api/api_myfiles.cc, handleGetShareFilelist of api/api_sharefiles.cc; Handlers.Ranking:
--   its handleGetRankingFilelist, which loads the ranking from the table when the numbers differ.
-- Api: jsoncpp's reader as a parameter and responses as the objects that are written (Api.Json), the
--   decoders and the command of a URL (Api.Requests), and the functions that the server calls:
--   ApiDealfile, ApiDealsharefile and ApiMd5 (Api.Files), ApiUserLogin and ApiRegisterUser (Api.Accounts,
--   with the accounts that a client sees in Api.Accounts.Machine), ApiMyfiles (Api.Lists), ApiSharefiles
--   (Api.Shares) and ApiSharepicture (Api.Pictures). Api.Upload: ApiUpload and the tools that it runs
--   (api/api_upload.cc); its form is in Api.Upload.Form.
-- Http: CHttpParserWrapper (http_parser_wrapper.cc), with the parser's calls as a list of events; CHttpConn
--   (http_conn.cc): the choice of the handler (Http.Routing), the responses, and the handlers with jsoncpp's
--   writer as a parameter (Http.Serving).
-- Lock: FileInfoLock and ScopedFileInfoLock (api/api_common.h), and threads that use them.
-- Pool: CDBPool (mysql/db_pool.cc) and CachePool (redis/cache_pool.cc), their condition variable as the
--   numbers of the calls that sleep on it and that it has woken, callers that hold connections
--   (Pool.Safety), and the calls that wait (Pool.Waits).
-- Main: main.cc: HttpServer's callbacks for the connections (Main.Connections), and what is done before
--   the event loop (Main.Startup).
-- Uploader: the console client client/upload/filehub-client.cc, as a conversation with the server and
--   the file system (Uploader.Session).
-- Managers: CDBManager and CacheManager, the pools by the names of a configuration.
-- Tests: a server that grants everything, concrete tables, locks, pools and texts, a Redis, connections,
--   and runs of the client.
--
-- The model runs one handler at a time over the services; threads are modelled for the lock, the pools
-- and the server's connections, where a critical section is one step. The attempts of handleShareFile at its lock are the ten
-- of the source. Numbers are natural numbers: counts and downloads are assumed to stay within the
-- columns' range, and the digits of a column to be read as atoi reads them. Names are assumed to hold no
-- quote and to fit their buffers, since the source prints them into statements of fixed length; texts
-- compare byte by byte. Keys of Redis do not expire in a run. The pools are assumed to hand out a
-- connection to a handler, and filehub_slave to hold what filehub_master holds. A join is assumed to
-- keep the order of its first table. The buffer of a URL's command is assumed to hold a string before
-- it is filled. Texts that are handed to Redis and read from it are assumed to hold no zero byte, times
-- to lie below 2^63, numbers in texts in the range of the type that they are read into, and positions of
-- Lrange to fit an int. The loop of ReplaceStr has as much fuel as its memory has bytes, and one. The threads of the console client send the same form, one behind
-- the other.
--
-- Not modelled: FormatString, a printf; numbers as parameters of a prepared statement, which have no
-- caller; the clock, sleeping and the pid file of base/util.cc; the speeds that the console client
-- prints; and the copies of muduo, hiredis, http_parser and httplib, which are other projects' code.
pub mod Base
pub mod Client
pub mod Schema
pub mod Redis
pub mod Program
pub mod Conn
pub mod Common
pub mod Handlers
pub mod Api
pub mod Http
pub mod Lock
pub mod Main
pub mod Managers
pub mod Pool
pub mod Uploader
pub mod Util
pub mod Tests
