-- ===== src/Core/Text.antt =====
-- Python's str, as far as the program uses it: f-strings, `str` of an int, `strip`, and the truth
-- value of a text.
use Prim.Native.Char.{Char, code}
use Prim.Native.String.{[], ◌∷◌, ◌++◌}
use mathlib.Core.Option
use mathlib.Core.Option.{Option, none, some}
use mathlib.Core.List.{List, [] as nil, ◌∷◌ as ◌::◌}
use ai_lead_qualifier.Prelude.{
  ℕ, zero, suc, ◌-◌, ◌/◌, ◌%◌, ◌≡◌, refl, String, Bool, true, false, ◌||◌, ◌&&◌, ◌==◌, ltb, leb,
  arith, if◌then◌else◌,
}

-- An f-string is the sequence of its pieces.
unfoldable pub f_string : List String → String
f_string nil = ""
f_string (s :: ss) = s ++ f_string ss

-- `not s`
abbrev pub is_empty_text : String → Bool
is_empty_text [] = true
is_empty_text (c ∷ s) = false

-- The characters that `str.isspace` accepts.
unfoldable pub is_space : Char → Bool
is_space c =
    let n = code c in
    leb 9 n && leb n 13
    || leb 28 n && leb n 32
    || n == 133
    || n == 160
    || n == 5760
    || leb 8192 n && leb n 8202
    || leb 8232 n && leb n 8233
    || n == 8239
    || n == 8287
    || n == 12288

unfoldable pub lstrip : String → String
lstrip [] = []
lstrip (c ∷ s) = if is_space c then lstrip s else c ∷ s

unfoldable pub rstrip : String → String
rstrip [] = []
rstrip (c ∷ s) = let r = rstrip s in if is_space c && is_empty_text r then [] else c ∷ r

unfoldable pub strip : String → String
unfolding lstrip rstrip is_space
strip s = rstrip (lstrip s)

abbrev digit : ℕ → String
digit n =
    if n == 0
    then "0"
    else if n == 1
    then "1"
    else if n == 2
    then "2"
    else if n == 3
    then "3"
    else if n == 4
    then "4"
    else if n == 5
    then "5"
    else if n == 6
    then "6"
    else if n == 7
    then "7"
    else if n == 8
    then "8"
    else "9"

digits : ℕ → ℕ → String
digits zero n = digit n
digits (suc f) n =
    let front = digits f (n / 10) in if ltb n 10 then digit n else front ++ digit (n % 10)

-- `str(n)`: a number has no more digits than it has units.
unfoldable pub show : ℕ → String
unfolding digits
show n = digits n n

-- The characters at which `str.splitlines` breaks.
is_break : Char → Bool
is_break c =
    let n = code c in
    leb 10 n && leb n 13 || leb 28 n && leb n 30 || n == 133 || n == 8232 || n == 8233

starts_newline : String → Bool
starts_newline [] = false
starts_newline (c ∷ s) = code c == 10

cons_first : Char → List String → List String
cons_first c nil = (c ∷ []) :: nil
cons_first c (l :: ls) = (c ∷ l) :: ls

-- A "\r" before a "\n" belongs to the same break.
unfoldable pub splitlines : String → List String
unfolding is_break starts_newline cons_first
splitlines [] = nil
splitlines (c ∷ s) =
    let rest = splitlines s in
    if code c == 13 && starts_newline s
    then rest
    else if is_break c
    then "" :: rest
    else cons_first c rest

-- `sep.join(ls)`
unfoldable pub join : String → List String → String
join sep nil = ""
join sep (l :: ls) = let rest = join sep ls in elim ls [ nil ↦ l | _ :: _ ↦ l ++ sep ++ rest ]

-- `text.find(c)` and `text.rfind(c)` for one character; `none` is -1.
unfoldable pub find_char : ℕ → String → Option ℕ
find_char c [] = none
find_char c (d ∷ s) =
    let rest = find_char c s in if code d == c then some 0 else Option.map suc rest

unfoldable pub rfind_char : ℕ → String → Option ℕ
rfind_char c [] = none
rfind_char c (d ∷ s) = elim (rfind_char c s) [
  | some i ↦ some (suc i)
  | none ↦ if code d == c then some 0 else none
]

-- `len(text)`
abbrev pub text_length : String → ℕ
text_length [] = 0
text_length (c ∷ s) = suc (text_length s)

unfoldable pub take_text : ℕ → String → String
take_text zero s = []
take_text (suc n) [] = []
take_text (suc n) (c ∷ s) = c ∷ take_text n s

unfoldable pub drop_text : ℕ → String → String
drop_text zero s = s
drop_text (suc n) [] = []
drop_text (suc n) (c ∷ s) = drop_text n s

-- `text[a:b]`
unfoldable pub slice : String → ℕ → ℕ → String
unfolding take_text drop_text
slice s a b = take_text (b - a) (drop_text a s)

splitlines_breaks : splitlines "a\r\nb\n\nc" ≡ "a" :: "b" :: "" :: "c" :: nil
unfolding splitlines
splitlines_breaks = refl

find_brackets :
    (find_char b'[' "x[1]" ≡ some 1)
    × (rfind_char b']' "x[1]]" ≡ some 4)
    × (slice "x[1]y" 1 4 ≡ "[1]")
unfolding find_char rfind_char slice
find_brackets = (refl, refl, refl)

show_1204 : show 1204 ≡ "1204"
unfolding show
show_1204 = refl

strip_ends : strip " a b\n" ≡ "a b"
unfolding strip
strip_ends = refl

rstrip-rstrip : (s : String) → rstrip (rstrip s) ≡ rstrip s
unfolding rstrip
rstrip-rstrip [] = refl
rstrip-rstrip (c ∷ s) = ground (arith, rstrip-rstrip s)

lstrip-rstrip-lstrip : (s : String) → lstrip (rstrip (lstrip s)) ≡ rstrip (lstrip s)
unfolding lstrip rstrip
lstrip-rstrip-lstrip [] = refl
lstrip-rstrip-lstrip (c ∷ s) = ground (arith, lstrip-rstrip-lstrip s)

pub strip-strip : (s : String) → strip (strip s) ≡ strip s
unfolding strip
strip-strip s = rw (lstrip-rstrip-lstrip s) (rstrip-rstrip (lstrip s))
