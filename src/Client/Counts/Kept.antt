-- ===== src/Client/Counts/Kept.antt =====
-- A counter that is set and read, and one that is taken below 0.
use filehub_cloud.Base.{
  true, some, [], ◌∷◌, Text, bytes, ℤ, pos, negsuc, ◌≡◌, refl, ap, sym, ◌∙◌, subst,
}
use filehub_cloud.Conn.Mysql.Numerals.{decimal-head}
use filehub_cloud.Util.Numbers.{atoll}
use filehub_cloud.Util.Numbers.RoundTrip.{atoll-signed}
use filehub_cloud.Client.Link.{◌>>=◌, done, sent, Reply, Hiredis, run, signed}
use filehub_cloud.Client.Connecting.{CacheConn}
use filehub_cloud.Client.Answers.{run->>=, continue, guarded_answered}
use filehub_cloud.Client.Keys.{reply_str, only_string, get, set}
use filehub_cloud.Client.Counts.{zero_if_answered, cache_set_count, count_read, cache_get_count}

-- No number is printed as the empty text.
count_read-signed : (i : ℤ) → count_read (signed i) ≡ (pos 0, i)
unfolding signed
count_read-signed (negsuc n) = ap (λ j. (pos 0, j)) (atoll-signed (negsuc n))
count_read-signed (pos n) =
    let (c, s, e, digit) = decimal-head n in
    subst (λ t. count_read t ≡ (pos 0, atoll t)) (sym e) refl
    ∙ ap (λ j. (pos 0, j)) (atoll-signed (pos n))

-- Where the server answers GET with the text that SET was given, CacheGetCount gives the count that
-- CacheSetCount was given, of either sign.
cache_get_count-cache_set_count-run :
    (S : Hiredis) (w : S.World) (c : CacheConn) (key : Text) (count : ℤ) (ok : Text)
    → c.context ≡ true
    → (S.on_command (bytes "SET" ∷ key ∷ signed count ∷ []) w).0 ≡ some (Reply.status ok)
    → (S.on_command
        (bytes "GET" ∷ key ∷ [])
        (S.on_command (bytes "SET" ∷ key ∷ signed count ∷ []) w).1).0
      ≡ some (Reply.string (signed count))
    → (run S (cache_set_count key count c >>= λ r. cache_get_count key r.1) w []).0
      ≡ some ((pos 0, count), c)
unfolding cache_set_count cache_get_count get set run ◌>>=◌
cache_get_count-cache_set_count-run S w c key count ok opened answered stored =
    ap (λ r. r.0)
      (run->>= S (cache_set_count key count c) (λ r. cache_get_count key r.1) w []
        ∙ ap (continue S (λ r. cache_get_count key r.1)) sets
        ∙ run->>= S (get key c) (λ r. done (count_read r.0, r.1)) _ _
        ∙ ap (continue S (λ r. done (count_read r.0, r.1))) (
            guarded_answered S _ _ c [] [] (bytes "GET" ∷ key ∷ []) only_string
              (Reply.string (signed count)) opened stored))
    ∙ ap (λ r. some (r, c)) (count_read-signed count)
  where
    sets : run S (cache_set_count key count c) w [] ≡ (
      some (zero_if_answered ok, c),
      (S.on_command (bytes "SET" ∷ key ∷ signed count ∷ []) w).1,
      sent (bytes "SET" ∷ key ∷ signed count ∷ []) ∷ [],
    )
    sets =
        run->>= S (set key (signed count) c) (λ r. done (zero_if_answered r.0, r.1)) w []
        ∙ ap (continue S (λ r. done (zero_if_answered r.0, r.1))) (
            guarded_answered S w [] c [] [] (bytes "SET" ∷ key ∷ signed count ∷ []) reply_str
              (Reply.status ok) opened answered)
