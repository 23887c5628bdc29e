-- ===== src/Http/Routing/Dispatch.antt =====
-- Where a request goes, by what its parts are.
use filehub_cloud.Base.{
  ℕ, ◌==◌, Bool, true, false, ◌&&◌, ◌||◌, Option, none, some, List, [], ◌∷◌, Text, bytes, first,
  get_elem?, ◌≡◌, ◌⊎◌, inl, inr, refl, sym, ap, subst, ◌∙◌, arith, Bool-cases, if◌then◌else◌, zero,
  suc, ==_iff,
}
use filehub_cloud.Http.Wrapper.{Event}
use filehub_cloud.Http.Wrapper.Parts.{urls, bodies, completes, parse_http_content_lem}
use filehub_cloud.Http.Routing.{
  Route, register, login, md5, upload, myfiles, sharepicture, dealfile, sharefiles, dealsharefile,
  html, memhtml, starts_with, route, routed, Reading, waits, not_found, handled, on_read,
}

abbrev pub prefix_of : Route → Text
prefix_of register = bytes "/api/reg"
prefix_of login = bytes "/api/login"
prefix_of md5 = bytes "/api/md5"
prefix_of upload = bytes "/api/upload"
prefix_of myfiles = bytes "/api/myfiles"
prefix_of sharepicture = bytes "/api/sharepic"
prefix_of dealfile = bytes "/api/dealfile"
prefix_of sharefiles = bytes "/api/sharefiles"
prefix_of dealsharefile = bytes "/api/dealsharefile"
prefix_of html = bytes "/api/html"
prefix_of memhtml = bytes "/api/memhtml"

abbrev routes : List Route
routes =
    register ∷ login ∷ md5 ∷ upload ∷ myfiles ∷ sharepicture ∷ dealfile ∷ sharefiles ∷ dealsharefile
    ∷ html ∷ memhtml ∷ []

abbrev place : Route → ℕ
place register = 0
place login = 1
place md5 = 2
place upload = 3
place myfiles = 4
place sharepicture = 5
place dealfile = 6
place sharefiles = 7
place dealsharefile = 8
place html = 9
place memhtml = 10

routes-place : (r : Route) → get_elem? routes (place r) ≡ some r
routes-place register = refl
routes-place login = refl
routes-place md5 = refl
routes-place upload = refl
routes-place myfiles = refl
routes-place sharepicture = refl
routes-place dealfile = refl
routes-place sharefiles = refl
routes-place dealsharefile = refl
routes-place html = refl
routes-place memhtml = refl

route-first : (url : Text) → route url ≡ first (λ r. starts_with url (prefix_of r)) routes
unfolding route first
route-first url = refl

-- Two texts that differ at a place that both have.
apart : Text → Text → Bool
apart [] q = false
apart (a ∷ p) [] = false
apart (a ∷ p) (b ∷ q) = let rest = apart p q in if a == b then rest else true

apart-starts_with :
    (url p q : Text) → apart p q ≡ true → starts_with url p ≡ true → starts_with url q ≡ false
unfolding apart starts_with
apart-starts_with url [] q e h = cc
apart-starts_with url (a ∷ p) [] e h = cc
apart-starts_with [] (a ∷ p) (b ∷ q) e h = cc
apart-starts_with (u ∷ url) (a ∷ p) (b ∷ q) e h = ground (arith, apart-starts_with url p q)

every : (Route → Bool) → List Route → Bool
every test [] = true
every test (r ∷ rs) = test r && every test rs

every-at :
    (test : Route → Bool) (rs : List Route) (i : ℕ) (r : Route)
    → every test rs ≡ true
    → get_elem? rs i ≡ some r
    → test r ≡ true
unfolding every
every-at test [] i r h e = cc
every-at test (x ∷ rs) zero r h e = grind arith
every-at test (x ∷ rs) (suc i) r h e = every-at test rs i r (ground arith) e

abbrev differ : Route → Route → Bool
differ r s = place r == place s || apart (prefix_of r) (prefix_of s)

all_differ : every (λ r. every (differ r) routes) routes ≡ true
unfolding every apart
all_differ = refl

some_same : {A : Type 0} {x y : A} → some x ≡ some y → x ≡ y
some_same e = cc

place_same : (r s : Route) → (place r == place s) ≡ true → s ≡ r
place_same r s e = some_same (
    sym (routes-place s)
    ∙ ap (get_elem? routes) (sym ((==_iff (place r) (place s)).0 e))
    ∙ routes-place r)

-- No URL starts with the prefixes of two routes.
only :
    (url : Text) (r s : Route)
    → starts_with url (prefix_of r) ≡ true
    → (starts_with url (prefix_of s) ≡ false) ⊎ (s ≡ r)
only url r s h = elim (Bool-cases (place r == place s)) [
  | inl e ↦ inr (place_same r s e)
  | inr e ↦ inl (
      apart-starts_with url (prefix_of r) (prefix_of s)
        (ground (
          arith,
          every-at (differ r) routes (place s) s
              (every-at (λ x. every (differ x) routes) routes (place r) r all_differ
                (routes-place r))
              (routes-place s),
        ))
        h)
]

first-holds : (p : Route → Bool) (rs : List Route) (r : Route) → first p rs ≡ some r → p r ≡ true
unfolding first
first-holds p [] r e = cc
first-holds p (x ∷ rs) r e = elim (Bool-cases (p x)) [
  | inl h ↦ grind arith
  | inr h ↦ first-holds p rs r (ground arith)
]

first-none :
    (p : Route → Bool) (rs : List Route) (i : ℕ) (r : Route)
    → first p rs ≡ none
    → get_elem? rs i ≡ some r
    → p r ≡ false
unfolding first
first-none p [] i r e h = cc
first-none p (x ∷ rs) zero r e h = grind arith
first-none p (x ∷ rs) (suc i) r e h = first-none p rs i r (ground arith) h

-- A request is waited for until its message is complete; then it goes to the one route whose prefix its
-- URL has, with the URL and the body, or is answered with 404 if there is none.
abbrev pub IsDispatched : List Event → Reading → Type 0
IsDispatched es waits = completes es ≡ false
IsDispatched es not_found =
    (completes es ≡ true) × ((s : Route) → starts_with (urls es) (prefix_of s) ≡ false)
IsDispatched es (handled r url content) =
    (completes es ≡ true)
    × (url ≡ urls es)
    × (content ≡ bodies es)
    × (starts_with url (prefix_of r) ≡ true)
    × ((s : Route) → (starts_with url (prefix_of s) ≡ false) ⊎ (s ≡ r))

routed-IsDispatched :
    (es : List Event) (o : Option Route)
    → completes es ≡ true
    → first (λ r. starts_with (urls es) (prefix_of r)) routes ≡ o
    → IsDispatched es (routed o (urls es) (bodies es))
unfolding routed
routed-IsDispatched es none c e = (
  c,
  λ s. first-none (λ r. starts_with (urls es) (prefix_of r)) routes (place s) s e (routes-place s),
)
routed-IsDispatched es (some r) c e =
    let h = first-holds (λ x. starts_with (urls es) (prefix_of x)) routes r e in
    (c, refl, refl, h, λ s. only (urls es) r s h)

-- OnRead, for every sequence of the parser's callbacks: without the end of a message it waits for more
-- data. With it, the handler is called whose prefix the URL has, if there is one, and no other prefix fits
-- too; the URL and the body are what the callbacks brought in pieces. Otherwise the response is 404.
pub on_read-IsDispatched : (es : List Event) → IsDispatched es (on_read es)
unfolding on_read
on_read-IsDispatched es =
    let (u, b, c) = parse_http_content_lem es in
    elim (Bool-cases (completes es)) [
      | inl e ↦
          rw (c, e, u, b)
            (subst (λ o. IsDispatched es (routed o (urls es) (bodies es)))
              (sym (route-first (urls es))) (routed-IsDispatched es _ e refl))
      | inr e ↦ rw (c, e) e
    ]
