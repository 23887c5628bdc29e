-- ===== src/Uploader/Peer.antt =====
-- The server and the file system that the console client talks to, and its uploads.
use filehub_cloud.Base.{
  ℕ, zero, suc, ◌≤◌, Option, none, some, List, [], ◌∷◌, Text, replicate, ◌≡◌, refl, ap, arith, ◌⊎◌,
  inl, inr,
}
use filehub_cloud.Uploader.{Opened}
use filehub_cloud.Uploader.Session.{Request, Talk, ends, killed, post, open_file, uploaded, uploads}

-- The server, with httplib, and the file system.
pub record Peer : Type 1 where
  pub World : Type 0
  pub on_post : Request → World → Option Text × World
  pub on_open : Text → World → Option Opened × World

pub data Ending : Type 0 where
  exit : ℕ → Ending
  kill : Ending

abbrev pub asked : Request → List Request × Ending → List Request × Ending
asked r (requests, e) = (r ∷ requests, e)

-- The requests of a run in their order, and its end.
unfoldable pub run : (P : Peer) → Talk → P.World → List Request × Ending
run P (ends status) w = ([], exit status)
run P killed w = ([], kill)
run P (post r k) w = let (a, w') = P.on_post r w in asked r (run P (k a) w')
run P (open_file path k) w = let (o, w') = P.on_open path w in run P (k o) w'

-- The end of a run with `k` of the `n` uploads.
abbrev pub Uploads : ℕ → ℕ → Ending → Type 0
Uploads n k e = ((k ≡ n) × (e ≡ exit 0)) ⊎ ((k ≤ n) × (e ≡ kill))

uploaded-run :
    (P : Peer) (r : Request) (m : ℕ) (a : Option Text) (w : P.World)
    → (k : ℕ) × ((run P (uploads m r) w).0 ≡ replicate k r) × Uploads m k (run P (uploads m r) w).1
    → (k : ℕ) × ((asked r (run P (uploaded (uploads m r) a) w)).0 ≡ replicate k r)
      × Uploads (suc m) k (asked r (run P (uploaded (uploads m r) a) w)).1
unfolding run
uploaded-run P r m none w h = (1, refl, inr (omega arith, refl))
uploaded-run P r m (some body) w (k, e, u) = (
  suc k,
  ap (λ rs. r ∷ rs) e,
  elim u [ inl (same, done) ↦ inl (ap suc same, done) | inr (fewer, cut) ↦ inr (omega arith, cut) ],
)

pub uploads-run :
    (P : Peer) (r : Request) (m : ℕ) (w : P.World)
    → (k : ℕ) × ((run P (uploads m r) w).0 ≡ replicate k r) × Uploads m k (run P (uploads m r) w).1
unfolding run uploads
uploads-run P r zero w = (0, refl, inl (refl, refl))
uploads-run P r (suc m) w =
    uploaded-run P r m (P.on_post r w).0 (P.on_post r w).1 (uploads-run P r m (P.on_post r w).1)
