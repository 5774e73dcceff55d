-- ===== src/Metadata/Tests.antt =====
-- A note is described, kept and read.
use lbpr.Prelude.{◌*◌, ◌≡◌, refl, String, true, none, some, [], ◌∷◌}
use lbpr.Prelude.Int.{pos}
use lbpr.Dict.{lookup, insert}
use lbpr.Metadata.Contracts.{text_input, blob_input, ExtractRequest}
use lbpr.Metadata.Keywords.{top_keywords, noop_summarize, noop_categorize}
use lbpr.Metadata.Guess.{title_guess, stats_of, guess_language}
use lbpr.Metadata.Service.{Libs, Dependencies, refusal, extract, get_metadata, read_in}
use lbpr.Metadata.Extracts.{shown_after, get_metadata-extract}

abbrev lower : String → String
lower s = s

abbrev libs : Libs
libs = record {
  encode = λ s. 1 ∷ 2 ∷ [];
  decode = λ raw. "blob";
  sha256_hex = λ raw. "00";
  reading_time = λ words. words * 300;
}

abbrev deps : Dependencies
deps = record {
  read_blob = read_in (("u", 7 ∷ []) ∷ []);
  top_keywords = top_keywords lower;
  llm = some (record {
    summarize = λ text tenant. some (noop_summarize text);
    categorize = λ text tenant n. some (noop_categorize lower text n);
  });
}

abbrev request : ExtractRequest
request = record {
  input = text_input "tax notes, tax" none;
  options = record { tenant_id = "t"; llm_enabled = true; top_k = pos 1; persist = true };
}

get_metadata-extract_example :
    get_metadata "m" "t" (extract libs deps "m" 5 request []).1
    ≡ shown_after "t" "m" true
        (λ j u. get_metadata j u [])
        (extract libs deps "m" 5 request []).0
        "m"
        "t"
get_metadata-extract_example = get_metadata-extract libs deps "m" 5 request [] "m" "t"

keywords : top_keywords lower "tax notes, tax" 1 "en" ≡ "tax" ∷ []
unfolding top_keywords insert lookup
keywords = refl

categories : noop_categorize lower "tax notes, tax" 5 ≡ "finance" ∷ "meeting-notes" ∷ []
unfolding noop_categorize
categories = refl

title : title_guess " one\ntwo" ≡ some "one"
unfolding title_guess
title = refl

counted :
    stats_of (λ words. words * 300) "one\ntwo"
    ≡ record { chars = 7; words = 2; lines = 2; reading_time_ms = 600 }
unfolding stats_of
counted = refl

english : guess_language "one" ≡ "en"
unfolding guess_language
english = refl

unknown_kind :
    (extract libs deps "m" 5 (record request { input = blob_input "x" "u" none }) []).0
    ≡ refusal 400
unfolding extract
unknown_kind = refl

no_blob :
    (extract libs deps "m" 5 (record request { input = blob_input "blob" "v" none }) []).0
    ≡ refusal 404
unfolding extract read_in lookup
no_blob = refl
