-- ===== src/Training/Rewards/Grounding.antt =====
-- rewards/grounding.py: `r_grounded` for one episode, with `CITATION_RE.findall` of rewards/_episode.py as a
-- scanner. `lower` is `str.lower`: a parameter.
pub mod Cited
use fde_agent_platform.Prelude.{
  ℕ, ◌+◌, Char, code, String, Bool, true, false, not, ◌&&◌, ◌||◌, Option, none, some, List, [], ◌∷◌,
  length, elem, leb, ◌==◌, str_eq, if◌then◌else◌,
}
use fde_agent_platform.Python.Text.{is_empty, strip}
use fde_agent_platform.Python.Value.{Value, str, truthy}
use fde_agent_platform.Training.Ratio.{Ratio, ◌//◌}
use fde_agent_platform.Training.Episode.{EpisodeLog}
use fde_agent_platform.Training.Episode.Retrieved.{retrieved_keys}

-- `[a-zA-Z0-9_:.\-]`
abbrev pub is_key_char : ℕ → Bool
is_key_char c =
    (leb 97 c && leb c 122)
    || ((leb 65 c && leb c 90)
        || ((leb 48 c && leb c 57) || (c == b'_' || (c == b':' || (c == b'.' || c == b'-')))))

abbrev pub snoc : String → Char → String
snoc String.[] c = String.◌∷◌ c ""
snoc (String.◌∷◌ d s) c = String.◌∷◌ d (snoc s c)

-- Where the scanner stands after a character; `some key` is inside a bracket, after the characters of `key`.
abbrev pub next : Option String → Char → Option String
next none c = if code c == b'[' then some "" else none
next (some key) c =
    if is_key_char (code c) then some (snoc key c) else if code c == b'[' then some "" else none

-- A bracket that closes on a key is a match.
abbrev pub emit : Option String → Char → List String → List String
emit none c keys = keys
emit (some key) c keys = if code c == b']' && not (is_empty key) then key ∷ keys else keys

unfoldable pub scan : Option String → String → List String
scan inside String.[] = []
scan inside (String.◌∷◌ c s) = emit inside c (scan (next inside c) s)

-- `CITATION_RE.findall`
unfoldable pub citations : String → List String
unfolding scan
citations text = scan none text

-- `set(...)`
abbrev pub distinct : List String → List String
distinct [] = []
distinct (k ∷ ks) = let rest = distinct ks in if elem k rest then rest else k ∷ rest

abbrev pub starts_with : String → String → Bool
starts_with String.[] s = true
starts_with (String.◌∷◌ c p) String.[] = false
starts_with (String.◌∷◌ c p) (String.◌∷◌ d s) = code c == code d && starts_with p s

-- `phrase in text`
abbrev pub occurs : String → String → Bool
occurs phrase String.[] = is_empty phrase
occurs phrase (String.◌∷◌ c s) = starts_with phrase (String.◌∷◌ c s) || occurs phrase s

abbrev pub abstention_phrases : List String
abstention_phrases =
    "no information found" ∷ "not enough evidence" ∷ "cannot find" ∷ "no results"
    ∷ "insufficient evidence" ∷ "i don't have enough information" ∷ "no matching" ∷ []

abbrev pub any_occurs : List String → String → Bool
any_occurs [] text = false
any_occurs (p ∷ ps) text = occurs p text || any_occurs ps text

-- `_is_abstention`
unfoldable pub is_abstention : String → Bool
is_abstention text = any_occurs abstention_phrases text

-- `log.final_answer or ""`; `none` is the `TypeError` of an answer that is no text.
abbrev pub answer_text : Value → Option String
answer_text (str s) = some s
answer_text v = if truthy v then none else some ""

abbrev pub is_text_of : String → Value → Bool
is_text_of k (str s) = str_eq k s
is_text_of k _ = false

-- `k in retrieved`
abbrev pub is_retrieved : String → List Value → Bool
is_retrieved k [] = false
is_retrieved k (v ∷ vs) = is_text_of k v || is_retrieved k vs

abbrev pub grounded_count : List String → List Value → ℕ
grounded_count [] retrieved = 0
grounded_count (k ∷ ks) retrieved =
    (if is_retrieved k retrieved then 1 else 0) + grounded_count ks retrieved

-- An answer without a citation.
abbrev pub uncited_score : String → Ratio
uncited_score stripped = if is_empty stripped || is_abstention stripped then 1 // 1 else 0 // 1

abbrev pub cited_score : List String → Option (List Value) → Option Ratio
cited_score cited none = none
cited_score cited (some retrieved) = some (grounded_count cited retrieved // length cited)

abbrev pub score_of : (String → String) → EpisodeLog → String → List String → Option Ratio
score_of lower log text [] = some (uncited_score (lower (strip text)))
score_of lower log text (k ∷ ks) = cited_score (k ∷ ks) (retrieved_keys log)

abbrev pub answer_score : (String → String) → EpisodeLog → Option String → Option Ratio
answer_score lower log none = none
answer_score lower log (some text) = score_of lower log text (distinct (citations text))

-- The term for one episode.
unfoldable pub grounded : (String → String) → EpisodeLog → Option Ratio
unfolding citations is_abstention retrieved_keys strip
grounded lower log = answer_score lower log (answer_text log.final_answer)
