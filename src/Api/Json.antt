-- ===== src/Api/Json.antt =====
-- What the API relies on of jsoncpp: a reader as a parameter, and the responses as the objects that are
-- handed to its writer.
use Prim.Native.String.{String}
use filehub_cloud.Base.{ℕ, Bool, Option, none, some, List, [], ◌∷◌, ℤ, Text, if◌then◌else◌}

-- Json::Reader and Json::Value. none stands for a text that does not parse, and for Json::LogicError,
-- which `operator[]` throws for a value that is no object, and asString and asInt for other types.
pub record JsonReader : Type 1 where
  pub Value : Type 0
  pub parse : Text → Option Value
  pub member : Value → Text → Option Value
  pub is_null : Value → Bool
  pub as_string : Value → Option Text
  pub as_int : Value → Option ℤ

-- A decoder returns -1, or 0 with the values, or an exception leaves it.
pub data Decoded (A : Type 0) : Type 0 where
  bad : Decoded A
  decoded : A → Decoded A
  throws : Decoded A

infixl 5 ◌>>=◌
abbrev pub ◌>>=◌ : {A B : Type 0} → Decoded A → (A → Decoded B) → Decoded B
bad >>= f = bad
decoded a >>= f = f a
throws >>= f = throws

abbrev pub returned : {A : Type 0} → Option A → Decoded A
returned none = throws
returned (some a) = decoded a

abbrev pub parsed : {A : Type 0} → Option A → Decoded A
parsed none = bad
parsed (some a) = decoded a

module _ (J : JsonReader) where
  unfoldable pub parse_root : Text → Decoded J.Value
  parse_root str_json = parsed (J.parse str_json)

  -- `if (root[key].isNull()) return -1;`, and the member.
  unfoldable pub required : J.Value → Text → Decoded J.Value
  required root key = returned (J.member root key) >>= λ v. if J.is_null v then bad else decoded v

  unfoldable pub text_of : J.Value → Text → Decoded Text
  unfolding required
  text_of root key = required root key >>= λ v. returned (J.as_string v)

  unfoldable pub int_of : J.Value → Text → Decoded ℤ
  unfolding required
  int_of root key = required root key >>= λ v. returned (J.as_int v)

  -- A member that may be missing; the variable is empty at first.
  unfoldable pub optional_text_of : J.Value → Text → Decoded Text
  optional_text_of root key = returned (J.member root key) >>= λ v.
      if J.is_null v then decoded [] else returned (J.as_string v)

-- Json::Value objects as they are filled: numbers, texts, and lists of such objects.
pub data Leaf : Type 0 where
  int : ℕ → Leaf
  text : Text → Leaf

abbrev pub File : Type 0
File = List (String × Leaf)

pub data Member : Type 0 where
  leaf : Leaf → Member
  files : List File → Member

abbrev pub Body : Type 0
Body = List (String × Member)

-- The response text; none if it was never written, and is empty.
abbrev pub Response : Type 0
Response = Option Body

-- `root["code"] = ret`, alone.
abbrev pub code_body : ℕ → Body
code_body ret = ("code", leaf (int ret)) ∷ []
