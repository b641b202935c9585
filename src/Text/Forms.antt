-- ===== src/Text/Forms.antt =====
-- Forms of texts that the program reads and writes: `format!`, `split(':')`, and the test for MJML that
-- `trim().to_lowercase().starts_with("<mjml")` makes (api/handlers/communication.rs).
use Prim.Native.Char.{Char, code}
use Prim.Native.String.{◌++◌ as push_str}
use Prim.Native.String.append
use booking_backend.Prelude.{
  ℕ, ◌+◌, ◌≡◌, refl, arith, String, Bool, true, false, ◌&&◌, ◌||◌, List, [], ◌∷◌, leb, eqb,
  if◌then◌else◌,
}
use booking_backend.Text.{codes}

-- `format!` of texts
unfoldable pub concat : List String → String
concat [] = ""
concat (s ∷ ss) = push_str s (concat ss)

abbrev pub push_front : Char → List String → List String
push_front c [] = String.◌∷◌ c String.[] ∷ []
push_front c (s ∷ ss) = String.◌∷◌ c s ∷ ss

-- `s.starts_with(prefix)`
abbrev pub begins_with : List ℕ → List ℕ → Bool
begins_with [] cs = true
begins_with (p ∷ ps) [] = false
begins_with (p ∷ ps) (c ∷ cs) = eqb p c && begins_with ps cs

abbrev pub starts_with : String → String → Bool
starts_with s prefix = begins_with (codes prefix) (codes s)

-- `s.contains(part)`
abbrev pub has_part : List ℕ → List ℕ → Bool
has_part ps [] = begins_with ps []
has_part ps (c ∷ cs) = begins_with ps (c ∷ cs) || has_part ps cs

abbrev pub contains_text : String → String → Bool
contains_text s part = has_part (codes part) (codes s)

-- `s.split(':').collect()`
unfoldable pub split_colon : String → List String
split_colon String.[] = String.[] ∷ []
split_colon (String.◌∷◌ c s) =
    let rest = split_colon s in if eqb (code c) b':' then String.[] ∷ rest else push_front c rest

-- `char::is_whitespace`
abbrev pub is_whitespace : ℕ → Bool
is_whitespace c =
    (leb 9 c && leb c 13)
    || eqb c 32
    || eqb c 133
    || eqb c 160
    || eqb c 5760
    || (leb 8192 c && leb c 8202)
    || eqb c 8232
    || eqb c 8233
    || eqb c 8239
    || eqb c 8287
    || eqb c 12288

abbrev pub trim_start : List ℕ → List ℕ
trim_start [] = []
trim_start (c ∷ cs) = if is_whitespace c then trim_start cs else c ∷ cs

-- A text begins with lower case letters once it is lowered, when it does so up to the case of ASCII: no
-- other character is lowered to one of `<mjl`.
abbrev pub to_lower : ℕ → ℕ
to_lower c = if leb b'A' c && leb c b'Z' then c + 32 else c

abbrev pub begins_lower : List ℕ → List ℕ → Bool
begins_lower [] cs = true
begins_lower (p ∷ ps) [] = false
begins_lower (p ∷ ps) (c ∷ cs) = eqb p (to_lower c) && begins_lower ps cs

-- `s.trim().to_lowercase().starts_with("<mjml")`; what stands at the end does not matter.
unfoldable pub is_mjml : String → Bool
is_mjml s = begins_lower (codes "<mjml") (trim_start (codes s))

-- A text without a colon.
abbrev pub has_colon : String → Bool
has_colon String.[] = false
has_colon (String.◌∷◌ c s) = eqb (code c) b':' || has_colon s

pub split_colon-plain : (s : String) → has_colon s ≡ false → split_colon s ≡ s ∷ []
unfolding split_colon
split_colon-plain String.[] h = refl
split_colon-plain (String.◌∷◌ c s) h =
    let off : eqb (code c) b':' ≡ false = ground arith in
    rw (off, split_colon-plain s (ground arith))

pub split_colon-append :
    (s t : String)
    → has_colon s ≡ false
    → split_colon (push_str s (push_str ":" t)) ≡ s ∷ split_colon t
unfolding split_colon
split_colon-append String.[] t h =
    rw (append.nil (push_str ":" t), append.cons ":" String.[] t, append.nil t)
split_colon-append (String.◌∷◌ c s) t h =
    let off : eqb (code c) b':' ≡ false = ground arith in
    rw (append.cons c s (push_str ":" t), off, split_colon-append s t (ground arith))

begins_with-append : (s t : String) → begins_with (codes s) (codes (push_str s t)) ≡ true
begins_with-append String.[] t = refl
begins_with-append (String.◌∷◌ c s) t =
    let same : eqb (code c) (code c) ≡ true = ground arith in
    rw (append.cons c s t, same, begins_with-append s t)

pub starts_with-append : (s t : String) → starts_with (push_str s t) s ≡ true
starts_with-append s t = begins_with-append s t
