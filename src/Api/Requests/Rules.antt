-- ===== src/Api/Requests/Rules.antt =====
-- Reasoning about what follows a command and a decoder.
use filehub_cloud.Base.{
  ◌≡◌, refl, same, same→≡, Bool-cases, inl, inr, Bool, true, false, if◌then◌else◌, Option, none,
  some, Text,
}
use filehub_cloud.Program.Defs.{Prog, View, Wp}
use filehub_cloud.Api.Json.{Decoded, bad, decoded, throws}
use filehub_cloud.Api.Requests.{on_command, with_command, command, after_decoding}

module _ {A : Type 0} (Q : Option A → View → Type 0) (v : View) where
  on_command_lem :
      (go : Text → Prog A) (o : Option Text)
      → Q none v
      → ((cmd : Text) → Wp (go cmd) Q v)
      → Wp (on_command go o) Q v
  unfolding on_command
  on_command_lem go none undefined run = undefined
  on_command_lem go (some cmd) undefined run = run cmd

  -- For every command that the URL may hold.
  pub Wp-command :
      (junk url : Text) (go : Text → Prog A)
      → Q none v
      → ((cmd : Text) → Wp (go cmd) Q v)
      → Wp (with_command junk url go) Q v
  unfolding with_command
  Wp-command junk url go = on_command_lem go (command junk url)

  -- For every request that the decoder may give.
  pub Wp-decoding :
      {R : Type 0} (d : Decoded R) (rejected : Prog A) (go : R → Prog A)
      → Q none v
      → Wp rejected Q v
      → ((r : R) → Wp (go r) Q v)
      → Wp (after_decoding d rejected go) Q v
  unfolding after_decoding
  Wp-decoding bad rejected go thrown refused run = refused
  Wp-decoding (decoded r) rejected go thrown refused run = run r
  Wp-decoding throws rejected go thrown refused run = thrown

  -- For every request that the decoder does give, with the equation.
  pub Wp-decoded :
      {R : Type 0} (d : Decoded R) (rejected : Prog A) (go : R → Prog A)
      → Q none v
      → Wp rejected Q v
      → ((r : R) → d ≡ decoded r → Wp (go r) Q v)
      → Wp (after_decoding d rejected go) Q v
  unfolding after_decoding
  Wp-decoded bad rejected go thrown refused run = refused
  Wp-decoded (decoded r) rejected go thrown refused run = run r refl
  Wp-decoded throws rejected go thrown refused run = thrown

  -- For the command that the URL does hold.
  on_command_eq :
      (go : Text → Prog A) (o : Option Text)
      → Q none v
      → ((cmd : Text) → o ≡ some cmd → Wp (go cmd) Q v)
      → Wp (on_command go o) Q v
  unfolding on_command
  on_command_eq go none undefined run = undefined
  on_command_eq go (some cmd) undefined run = run cmd refl

  pub Wp-command_eq :
      (junk url : Text) (go : Text → Prog A)
      → Q none v
      → ((cmd : Text) → command junk url ≡ some cmd → Wp (go cmd) Q v)
      → Wp (with_command junk url go) Q v
  unfolding with_command
  Wp-command_eq junk url go = on_command_eq go (command junk url)

  -- For a command that is the given one, and for one that is not.
  pub Wp-same :
      (cmd word : Text) (p q : Prog A)
      → (cmd ≡ word → Wp p Q v)
      → (same cmd word ≡ false → Wp q Q v)
      → Wp (if same cmd word then p else q) Q v
  Wp-same cmd word p q taken other = elim (Bool-cases (same cmd word)) [
    | inl e ↦ rw e (taken (same→≡ cmd word e))
    | inr e ↦ rw e (other e)
  ]

  -- For both ways that a test may go.
  pub Wp-if : (b : Bool) (p q : Prog A) → Wp p Q v → Wp q Q v → Wp (if b then p else q) Q v
  Wp-if true p q taken other = taken
  Wp-if false p q taken other = other
