-- ===== src/Tests/Clients.antt =====
-- A Redis that answers each command alike, connections of the server, a run of the console client, and a
-- replacement.
use filehub_cloud.Base.{
  ℕ, ◌<◌, ◌^◌, Option, none, some, List, [], ◌∷◌, Text, bytes, same, decimal, pos, negsuc, true,
  ◌≡◌, refl, arith, if◌then◌else◌,
}
use filehub_cloud.Redis.{find}
use filehub_cloud.Client.Link as Link
use filehub_cloud.Client.Link.{Hiredis, Reply, told, attempted, sent, ◌>>=◌}
use filehub_cloud.Client.Connecting.{CacheConn, new_cache_conn, de_init}
use filehub_cloud.Client.Keys.{get}
use filehub_cloud.Client.Hashes.{h_m_set, h_get_all, argv_of}
use filehub_cloud.Client.Hashes.Stored.{listed, h_get_all-h_m_set-run}
use filehub_cloud.Client.Counts.{cache_decr_count, cache_incr_count}
use filehub_cloud.Client.Calls.{Call, gets, sets, session}
use filehub_cloud.Client.Orderly.Session.{IsSession, session-IsSession-run}
use filehub_cloud.Main.Connections.{
  new_server, on_pool, dropped, connected, disconnected, message, serve,
}
use filehub_cloud.Main.Connections.Routed.{is_in, expected, serve-expected}
use filehub_cloud.Util.Replace.{ended, replace_str, replace_mark}
use filehub_cloud.Util.Replace.Ended.{replaced, replace_str-replaced}

abbrev pair : Text × Text
pair = (bytes "a", bytes "1")

-- Four seconds pass between two looks at the clock. SELECT and SET are done, HGETALL lists one pair, GET has no
-- answer, which breaks the connection, and other commands answer with an integer.
abbrev reply_to : List Text → Option Reply
reply_to [] = none
reply_to (word ∷ words) =
    if same word (bytes "GET")
    then none
    else if same word (bytes "HGETALL")
    then some (listed (pair ∷ []))
    else if same word (bytes "HMSET")
    then some (Reply.status (bytes "OK"))
    else if same word (bytes "SELECT")
    then some (Reply.status (bytes "OK"))
    else some (Reply.integer (negsuc 1))

abbrev redis : Hiredis
redis = record {
  World = ℕ;
  on_time = λ w. (4, w);
  on_connect = λ ip port w. (Link.connected, w);
  on_command = λ words w. (reply_to words, w);
  on_format = λ s w. (none, w);
  on_free = λ w. w;
}

redis-InRange : (w : ℕ) → 4 < 2 ^ 63
redis-InRange w = omega arith

abbrev ip : Text
ip = bytes "127.0.0.1"

abbrev fresh : CacheConn
fresh = new_cache_conn ip 6379 1 [] (bytes "token")

abbrev calls : List Call
calls = sets (bytes "k") (bytes "v") ∷ gets (bytes "k") ∷ gets (bytes "k") ∷ []

session-IsSession-run_example :
    IsSession
      (Link.run redis (session calls (new_cache_conn ip 6379 1 [] (bytes "token"))) 0 []).0
      (Link.run redis (session calls (new_cache_conn ip 6379 1 [] (bytes "token"))) 0 []).2
session-IsSession-run_example =
    session-IsSession-run redis redis-InRange ip 6379 1 [] (bytes "token") calls 0

abbrev open_conn : CacheConn
open_conn = record fresh { context = true }

h_get_all-h_m_set-run_example :
    (m : List (Text × Text)) × ((Link.run redis
        (h_m_set (bytes "h") (pair ∷ []) open_conn >>= λ r. h_get_all (bytes "h") [] r.1)
        0
        []).0
      ≡ some ((true, m), open_conn))
    × ((f : Text) → find f m ≡ find f (pair ∷ []))
unfolding argv_of same
h_get_all-h_m_set-run_example =
    h_get_all-h_m_set-run redis 0 open_conn (bytes "h") (pair ∷ []) (pair ∷ [])
      (Reply.status (bytes "OK")) refl refl refl (λ f. refl)

-- A counter below 0 is set to 0.
decr_below :
    (Link.run redis (cache_decr_count (bytes "n") open_conn) 0 []).2
    ≡ sent (bytes "SET" ∷ bytes "n" ∷ bytes "0" ∷ []) ∷ sent (bytes "DECR" ∷ bytes "n" ∷ []) ∷ []
unfolding Link.run cache_decr_count Link.◌>>=◌ same decimal
decr_below = refl

-- AUTH is refused, and the next command is sent all the same.
abbrev strict : Hiredis
strict = record redis { on_command = λ words w. (some (Reply.error (bytes "NOAUTH")), w) }

sent_unauthenticated :
    (Link.run strict
      (session (gets (bytes "k") ∷ gets (bytes "k") ∷ []) (new_cache_conn ip 6379 1 (bytes "p") []))
      0
      []).2
    ≡ Link.freed
      ∷ sent (bytes "GET" ∷ bytes "k" ∷ [])
      ∷ sent (bytes "AUTH" ∷ bytes "p" ∷ [])
      ∷ attempted Link.connected
      ∷ told 4
      ∷ []
unfolding Link.run session Link.◌>>=◌ new_cache_conn get de_init
sent_unauthenticated = refl

serve-expected_example :
    serve
      (connected 7 ∷ connected 9 ∷ message 7 ∷ disconnected 7 ∷ message 7 ∷ message 9 ∷ [])
      (new_server 2)
    ≡ expected 2
        (connected 7 ∷ connected 9 ∷ message 7 ∷ disconnected 7 ∷ message 7 ∷ message 9 ∷ [])
        []
unfolding is_in
serve-expected_example =
    serve-expected 2
      (connected 7 ∷ connected 9 ∷ message 7 ∷ disconnected 7 ∷ message 7 ∷ message 9 ∷ [])
      (refl, (refl, (refl, (refl, (refl, (refl, tt)))))) (omega arith)

-- The first connection's message goes to its own CHttpConn, and one behind its end nowhere.
expected_reads :
    expected 2
      (connected 7 ∷ connected 9 ∷ message 7 ∷ disconnected 7 ∷ message 7 ∷ message 9 ∷ [])
      []
    ≡ on_pool 7 ∷ dropped ∷ on_pool 9 ∷ []
unfolding expected
expected_reads = refl

replace_str-replaced_example :
    replace_str 97 98 (some (97 ∷ 99 ∷ 97 ∷ 0 ∷ 97 ∷ []))
    ≡ some (replaced 97 98 (97 ∷ 99 ∷ 97 ∷ 0 ∷ 97 ∷ []))
replace_str-replaced_example = replace_str-replaced 97 98 (97 ∷ 99 ∷ 97 ∷ 0 ∷ 97 ∷ [])

replaced_bytes : replaced 97 98 (97 ∷ 99 ∷ 97 ∷ 0 ∷ 97 ∷ []) ≡ ended (98 ∷ 99 ∷ 98 ∷ 0 ∷ 97 ∷ [])
unfolding replaced
replaced_bytes = refl

-- The mark in the value is not taken for the next one.
replace_marks : (replace_mark (bytes "a=? b=?") (bytes "?") 0) ≡ (bytes "a='?' b=?", 5)
unfolding replace_mark
replace_marks = refl

replace_second_mark : replace_mark (bytes "a='?' b=?") (bytes "x") 5 ≡ (bytes "a='?' b='x'", 11)
unfolding replace_mark
replace_second_mark = refl

-- INCR and CacheIncrCount do not look at the count.
incr_minus_two :
    (Link.run redis (cache_incr_count (bytes "n") open_conn) 0 []).0 ≡ some (pos 0, open_conn)
unfolding Link.run cache_incr_count Link.◌>>=◌ same
incr_minus_two = refl
