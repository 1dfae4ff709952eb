-- ===== src/Prelude/Texts.antt =====
-- Python's `str` where the program looks into it: the list of its code points.
use competitor_scout.Prelude.{
  ℕ, ◌≡◌, refl, Bool, true, false, ◌&&◌, ◌||◌, List, [], ◌∷◌, ◌++◌, String, arith, ◌==◌, leb,
  if◌then◌else◌, ◌↔◌, length, drop, ◌-◌,
}
use Prim.Native.Char.{code}

abbrev pub Text : Type 0
Text = List ℕ

-- The text of a literal.
abbrev pub str : String → Text
str String.[] = []
str (String.◌∷◌ c s) = code c ∷ str s

unfoldable pub text_eq : Text → Text → Bool
text_eq [] [] = true
text_eq (c ∷ s) (d ∷ t) = c == d && text_eq s t
text_eq [] (d ∷ t) = false
text_eq (c ∷ s) [] = false

pub text_eq→eq : (s t : Text) → text_eq s t ≡ true → s ≡ t
unfolding text_eq
text_eq→eq [] [] h = refl
text_eq→eq (c ∷ s) (d ∷ t) h = ground (arith, text_eq→eq s t)
text_eq→eq [] (d ∷ t) h = cc
text_eq→eq (c ∷ s) [] h = cc

pub text_eq_refl : (s : Text) → text_eq s s ≡ true
unfolding text_eq
text_eq_refl [] = refl
text_eq_refl (c ∷ s) = ground (arith, text_eq_refl s)

pub text_eq_iff : (s t : Text) → (text_eq s t ≡ true) ↔ (s ≡ t)
text_eq_iff s t = (text_eq→eq s t, λ e. rw e (text_eq_refl t))

abbrev pub mem_text : Text → List Text → Bool
mem_text s [] = false
mem_text s (t ∷ ts) = text_eq t s || mem_text s ts

-- `str.isspace` of one character.
unfoldable pub is_space : ℕ → Bool
is_space c =
    (leb 9 c && leb c 13)
    || (leb 28 c && leb c 32)
    || c == 0x85
    || c == 0xa0
    || c == 0x1680
    || (leb 0x2000 c && leb c 0x200a)
    || c == 0x2028
    || c == 0x2029
    || c == 0x202f
    || c == 0x205f
    || c == 0x3000

unfoldable pub drop_while : (ℕ → Bool) → Text → Text
drop_while p [] = []
drop_while p (c ∷ s) = let rest = drop_while p s in if p c then rest else c ∷ s

abbrev pub keep_char : Bool → ℕ → Text → Text
keep_char drops c [] = if drops then [] else c ∷ []
keep_char drops c (d ∷ r) = c ∷ d ∷ r

-- Without the characters at the end that pass the test: `rstrip`.
unfoldable pub drop_end : (ℕ → Bool) → Text → Text
drop_end p [] = []
drop_end p (c ∷ s) = keep_char (p c) c (drop_end p s)

-- `str.strip()`.
unfoldable pub strip : Text → Text
unfolding drop_while drop_end is_space
strip s = drop_end is_space (drop_while is_space s)

-- `s.endswith(t)`.
unfoldable pub ends_with : Text → Text → Bool
unfolding text_eq
ends_with s t = leb (length t) (length s) && text_eq (drop (length s - length t) s) t

-- `s.startswith(t)`.
unfoldable pub starts_with : Text → Text → Bool
starts_with s [] = true
starts_with [] (d ∷ t) = false
starts_with (c ∷ s) (d ∷ t) = c == d && starts_with s t

-- `t in s`.
unfoldable pub contains : Text → Text → Bool
unfolding starts_with
contains [] t = starts_with [] t
contains (c ∷ s) t = starts_with (c ∷ s) t || contains s t

abbrev first_char_space : Text → Bool
first_char_space [] = true
first_char_space (c ∷ s) = is_space c

unfoldable pub cons_word : ℕ → Bool → List Text → List Text
cons_word c true ws = (c ∷ []) ∷ ws
cons_word c false [] = (c ∷ []) ∷ []
cons_word c false (w ∷ ws) = (c ∷ w) ∷ ws

-- `s.split()`: the runs of characters that are no white space.
unfoldable pub split : Text → List Text
unfolding is_space cons_word
split [] = []
split (c ∷ s) =
    let rest = split s in if is_space c then rest else cons_word c (first_char_space s) rest

-- `" ".join(words)`.
unfoldable pub join : List Text → Text
join [] = []
join (w ∷ []) = w
join (w ∷ v ∷ ws) = w ++ 32 ∷ join (v ∷ ws)

-- `" ".join(s.split())`.
unfoldable pub collapse : Text → Text
unfolding split join
collapse s = join (split s)

-- `any(character.isspace() for character in s)`.
unfoldable pub has_space : Text → Bool
unfolding is_space
has_space [] = false
has_space (c ∷ s) = is_space c || has_space s

collapse_words : collapse (str "  two   words ") ≡ str "two words"
unfolding collapse
collapse_words = refl

strip_ends : strip (str "  a b ") ≡ str "a b"
unfolding strip
strip_ends = refl

suffix_test : ends_with (str "a.localhost") (str ".localhost") ≡ true
unfolding ends_with
suffix_test = refl
