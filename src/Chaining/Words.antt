-- ===== src/Chaining/Words.antt =====
-- The operations of `str` that src/hook_chaining.rs uses: a text is the list of its characters.
use Prim.Native.Char.{Char, code}
use Prim.Native.String.{String, [], ◌∷◌, ◌++◌}
use text.Mathlib.Text.{find?}
use snp.Prelude.{
  ℕ, Bool, true, false, ◌||◌, ◌&&◌, if◌then◌else◌, leb, nat_beq, List, Option, none, some,
}

abbrev pub is_found : Option ℕ → Bool
is_found none = false
is_found (some _) = true

abbrev pub contains_text : String → String → Bool
contains_text text part = is_found (find? text part)

-- `White_Space` of Unicode.
abbrev pub is_whitespace : Char → Bool
is_whitespace c =
    (leb 9 (code c) && leb (code c) 13)
    || nat_beq (code c) 32
    || nat_beq (code c) 133
    || nat_beq (code c) 160
    || nat_beq (code c) 5760
    || (leb 8192 (code c) && leb (code c) 8202)
    || nat_beq (code c) 8232
    || nat_beq (code c) 8233
    || nat_beq (code c) 8239
    || nat_beq (code c) 8287
    || nat_beq (code c) 12288

abbrev pub is_quote : Char → Bool
is_quote c = nat_beq (code c) 39

abbrev pub is_redirection : Char → Bool
is_redirection c = nat_beq (code c) 62

abbrev pub no_text : String → Bool
no_text [] = true
no_text (c ∷ s) = false

abbrev pub push_word : String × List String → List String
push_word (w, ws) = if no_text w then ws else List.◌∷◌ w ws

-- The text up to the first white space, and the words after it.
unfoldable pub words : String → String × List String
words [] = ([], List.[])
words (c ∷ s) =
    let rest = words s in if is_whitespace c then ([], push_word rest) else (c ∷ rest.0, rest.1)

unfoldable pub split_whitespace : String → List String
split_whitespace text = push_word (words text)

unfoldable pub join_spaces : List String → String
join_spaces List.[] = []
join_spaces (List.◌∷◌ w List.[]) = w
join_spaces (List.◌∷◌ w (List.◌∷◌ v ws)) = w ++ " " ++ join_spaces (List.◌∷◌ v ws)

-- The text before the first character that passes the test.
unfoldable pub before : (Char → Bool) → String → String
before p [] = []
before p (c ∷ s) = let rest = before p s in if p c then [] else c ∷ rest

unfoldable pub trim_start : (Char → Bool) → String → String
trim_start p [] = []
trim_start p (c ∷ s) = let rest = trim_start p s in if p c then rest else c ∷ s

unfoldable pub trim_end : (Char → Bool) → String → String
trim_end p [] = []
trim_end p (c ∷ s) = let rest = trim_end p s in if p c && no_text rest then [] else c ∷ rest

unfoldable pub trim_matches : (Char → Bool) → String → String
trim_matches p text = trim_start p (trim_end p text)
