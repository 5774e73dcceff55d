-- ===== src/Metadata/Guess.antt =====
-- components/metadataservice/service.py: the guesses and counts of a text. The share
-- of ASCII characters, a float in the source, is compared exactly; the reading time, which the source
-- rounds down from a product of floats, is a parameter.
use Prim.Native.Char.{code}
use Prim.Native.String.{count}
use lbpr.Prelude.{
  ℕ, suc, ◌+◌, ◌*◌, String, Bool, true, false, ◌&&◌, ◌||◌, Option, none, some, max, leb, ltb, ◌==◌,
  length, if◌then◌else◌,
}
use lbpr.Text.{is_space, split}
use lbpr.Text.Slice.{text_take}
use lbpr.Text.Strip.{strip, no_text}
use lbpr.Metadata.Contracts.{Stats}

unfoldable pub count_ascii : String → ℕ
count_ascii String.[] = 0
count_ascii (String.◌∷◌ c s) =
    let rest : ℕ = count_ascii s in if ltb (code c) 128 then suc rest else rest

unfoldable pub guess_language : String → String
unfolding count_ascii
guess_language text =
    if ltb (85 * max 1 (count text)) (100 * count_ascii text) then "en" else "unknown"

abbrev pub guess_mime : String → String
guess_mime text = "text/plain"

-- the characters at which `splitlines` splits
unfoldable pub is_line_break : ℕ → Bool
is_line_break c =
    (leb 10 c && leb c 13) || (leb 28 c && leb c 30) || c == 133 || c == 8232 || c == 8233

unfoldable pub first_line : String → String
unfolding is_line_break
first_line String.[] = String.[]
first_line (String.◌∷◌ c s) =
    let rest : String = first_line s in
    if is_line_break (code c) then String.[] else String.◌∷◌ c rest

unfoldable pub title_guess : String → Option String
unfolding strip is_space no_text first_line text_take
title_guess text =
    let title : String = text_take 120 (first_line (strip is_space text)) in
    if no_text title then none else some title

unfoldable pub count_newlines : String → ℕ
count_newlines String.[] = 0
count_newlines (String.◌∷◌ c s) =
    let rest : ℕ = count_newlines s in if code c == 10 then suc rest else rest

-- `text and not text.endswith("\n")`
unfoldable pub ends_open : String → Bool
ends_open String.[] = false
ends_open (String.◌∷◌ c String.[]) = if code c == 10 then false else true
ends_open (String.◌∷◌ c (String.◌∷◌ d s)) = ends_open (String.◌∷◌ d s)

unfoldable pub stats_of : (ℕ → ℕ) → String → Stats
unfolding split count_newlines ends_open
stats_of reading_time text = record {
  chars = count text;
  words = length (split text);
  lines = count_newlines text + (if ends_open text then 1 else 0);
  reading_time_ms = reading_time (length (split text));
}
