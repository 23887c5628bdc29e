-- ===== src/Client/Hashes/Stored.antt =====
-- A hash that is written with Hmset and read with HgetAll.
use filehub_cloud.Base.{
  Bool, true, false, Option, none, some, List, [], ◌∷◌, map, Text, bytes, same, same→≡,
  if◌then◌else◌, ◌≡◌, refl, ap, ◌∙◌, Option-cases, inl, inr, subst,
}
use filehub_cloud.Redis.{find, find-put}
use filehub_cloud.Client.Link.{◌>>=◌, Reply, Element, Hiredis, run}
use filehub_cloud.Client.Connecting.{CacheConn}
use filehub_cloud.Client.Answers.{run->>=, continue, guarded_answered}
use filehub_cloud.Client.Keys.{reply_str}
use filehub_cloud.Client.Hashes.{
  insert, or_else, paired, argv_of, answered_h_get_all, h_get_all, h_m_set,
}

-- The value of the first map that has one.
abbrev either_value : Option Text → Option Text → Option Text
either_value none o = o
either_value (some v) o = some v

either-none : (o : Option Text) → o ≡ either_value o none
either-none none = refl
either-none (some v) = refl

either_assoc :
    (o p q : Option Text) → either_value (either_value o p) q ≡ either_value o (either_value p q)
either_assoc none p q = refl
either_assoc (some v) p q = refl

-- A key that has a value hides the new one; another key's entry is not touched.
shown :
    (b : Bool) (k f v : Text) (m : List (Text × Text)) (w : Text)
    → same k f ≡ b
    → find k m ≡ some w
    → find f m ≡ either_value (find f m) (if b then some v else none)
shown true k f v m w e h =
    subst (λ j. find j m ≡ either_value (find j m) (some v)) (same→≡ k f e) (rw h refl)
shown false k f v m w e h = either-none (find f m)

absent :
    (b : Bool) (k f v : Text) (m : List (Text × Text))
    → same k f ≡ b
    → find k m ≡ none
    → (if b then some v else find f m) ≡ either_value (find f m) (if b then some v else none)
absent true k f v m e h =
    subst (λ j. some v ≡ either_value (find j m) (some v)) (same→≡ k f e) (rw h refl)
absent false k f v m e h = either-none (find f m)

find-insert :
    (f k v : Text) (m : List (Text × Text))
    → find f (insert k v m) ≡ either_value (find f m) (if same k f then some v else none)
find-insert f k v m = elim (Option-cases (find k m)) [
  | inl e ↦ rw (insert, e) (find-put k f v m ∙ absent (same k f) k f v m refl e)
  | inr (w, e) ↦ rw (insert, e) (shown (same k f) k f v m w refl e)
]

or_rest :
    (b : Bool) (v : Text) (o : Option Text)
    → either_value (if b then some v else none) o ≡ (if b then some v else o)
or_rest true v o = refl
or_rest false v o = refl

-- What the loop makes of the elements that a server lists for a hash.
paired-argv_of :
    (hash m : List (Text × Text))
    → (m' : List (Text × Text)) × (paired (map Element.string (argv_of hash)) m ≡ some m')
      × ((f : Text) → find f m' ≡ either_value (find f m) (find f hash))
unfolding paired argv_of find
paired-argv_of [] m = (m, refl, λ f. either-none (find f m))
paired-argv_of ((k, v) ∷ hash) m =
    let (m', e, same_values) = paired-argv_of hash (insert k v m) in
    (
      m',
      e,
      λ f.
          same_values f
          ∙ ap (λ o. either_value o (find f hash)) (find-insert f k v m)
          ∙ either_assoc (find f m) _ (find f hash)
          ∙ ap (either_value (find f m)) (or_rest (same k f) v (find f hash)),
    )

abbrev pub listed : List (Text × Text) → Reply
listed hash = Reply.array (map Element.string (argv_of hash))

-- On an open connection, where Redis answers HMSET, and HGETALL with some list of pairs that has the
-- value of each field of the map that was written: HgetAll returns true, keeps the connection, and gives a
-- map with the same value of each field.
pub h_get_all-h_m_set-run :
    (S : Hiredis) (w : S.World) (c : CacheConn) (key : Text) (hash stored : List (Text × Text))
    (ok : Reply)
    → c.context ≡ true
    → (S.on_command (bytes "HMSET" ∷ key ∷ argv_of hash) w).0 ≡ some ok
    → (S.on_command
        (bytes "HGETALL" ∷ key ∷ [])
        (S.on_command (bytes "HMSET" ∷ key ∷ argv_of hash) w).1).0
      ≡ some (listed stored)
    → ((f : Text) → find f stored ≡ find f hash)
    → (m : List (Text × Text)) × ((run S (h_m_set key hash c >>= λ r. h_get_all key [] r.1) w []).0
        ≡ some ((true, m), c))
      × ((f : Text) → find f m ≡ find f hash)
unfolding h_m_set h_get_all answered_h_get_all find
h_get_all-h_m_set-run S w c key hash stored ok opened answered lists stores =
    let (m, e, values) = paired-argv_of stored [] in
    (
      m,
      ap (λ r. r.0)
            (run->>= S (h_m_set key hash c) (λ r. h_get_all key [] r.1) w []
              ∙ ap (continue S (λ r. h_get_all key [] r.1)) (
                  guarded_answered S w [] c [] [] (bytes "HMSET" ∷ key ∷ argv_of hash) reply_str ok
                    opened answered)
              ∙ guarded_answered S _ _ c (false, []) (false, []) (bytes "HGETALL" ∷ key ∷ [])
                  (answered_h_get_all []) (listed stored) opened lists)
          ∙ ap (λ o. some ((true, or_else [] o), c)) e,
      λ f. values f ∙ stores f,
    )
