-- ===== src/Xray/Transport/Values.antt =====
-- xray_vps_manager/xray/config.py: single values in the extra settings of XHTTP.
use Prim.Native.Char.{code}
use xray_vps_manager.Base.{
  ℕ, String, Bool, true, false, not, ◌&&◌, ◌||◌, Option, none, some, List, [], ◌∷◌, map, contains,
  if◌then◌else◌, leb, ltb, nat_eq, starts_with, ◌==◌,
}
use xray_vps_manager.Json.{
  Json, null, bool, num, str, arr, elements, py_str, text_or_empty, strip, is_space, is_ascii_alnum,
}
use xray_vps_manager.Clients.Access.{is_number, decimal, all_digits}
use xray_vps_manager.Clients.Email.{split_at}
use xray_vps_manager.Xray.Transport.{◌>>=◌, refuse_if, text_length, all_chars, one_of}

-- `_is_empty_extra_value`
abbrev pub is_empty_extra_value : Json → Bool
is_empty_extra_value null = true
is_empty_extra_value (str s) = strip s == ""
is_empty_extra_value _ = false

-- `0|[1-9][0-9]*`
unfoldable pub number_text : String → Bool
unfolding all_digits
number_text s = s == "0" || (not (starts_with s "0") && is_number s)

-- The text behind a minus sign.
abbrev pub unsigned : String → String
unsigned String.[] = ""
unsigned (String.◌∷◌ c s) = if nat_eq (code c) b'-' then s else String.◌∷◌ c s

-- INTEGER_RE
abbrev pub integer_text : String → Bool
integer_text s = number_text (unsigned s)

-- `int(text, 10) < 0`, `int(text, 10) > 0`
abbrev pub is_negative : String → Bool
is_negative s = starts_with s "-" && not (unsigned s == "0")

abbrev pub is_positive : String → Bool
is_positive s = not (starts_with s "-") && not (s == "0")

-- What Python prints for `int(text, 10)`.
abbrev pub printed : String → String
printed s = if s == "-0" then "0" else s

-- The start and the end of a range that NON_NEGATIVE_RANGE_RE matches.
unfoldable pub range_of : String → Option (ℕ × ℕ)
unfolding decimal
range_of text = elim (split_at (one_of (b'-' ∷ [])) text) [
  | a ∷ b ∷ [] ↦ if number_text a && number_text b then some (decimal 0 a, decimal 0 b) else none
  | _ ↦ none
]

abbrev pub from_integer : Bool → String → Option Json
from_integer allow_negative_one t =
    if allow_negative_one && t == "-1"
    then some (num "-1")
    else refuse_if (is_negative t) (some (num (printed t)))

-- The text of a range has no other form than the one that is written back.
abbrev pub from_text : Bool → String → Option Json
from_text allow_negative_one text =
    if allow_negative_one && text == "-1"
    then some (num "-1")
    else if integer_text text
    then from_integer false text
    else elim (range_of text) [
      | none ↦ none
      | some (start, end) ↦ refuse_if (ltb end start) (some (str text))
    ]

-- `_normalize_non_negative_range`
unfoldable pub normalize_non_negative_range : Bool → Json → Option Json
normalize_non_negative_range allow (bool b) = none
normalize_non_negative_range allow (num t) =
    if integer_text t then from_integer allow t else from_text allow (strip t)
normalize_non_negative_range allow value = from_text allow (strip (py_str value))

-- `_normalize_integer`, the text that Python prints for it.
unfoldable pub normalize_integer : Json → Option String
normalize_integer (bool b) = none
normalize_integer (num t) =
    if integer_text t
    then some t
    else refuse_if (not (integer_text (strip t))) (some (printed (strip t)))
normalize_integer value =
    let text = strip (py_str value) in refuse_if (not (integer_text text)) (some (printed text))

unfoldable pub normalize_non_negative_integer : Json → Option Json
normalize_non_negative_integer value = do
  number ← normalize_integer value
  refuse_if (is_negative number) (some (num number))

abbrev pub is_port : String → Bool
is_port number =
    not (is_negative number) && (leb 1 (decimal 0 number) && leb (decimal 0 number) 65535)

unfoldable pub normalize_port : Json → Option Json
normalize_port value = do
  number ← normalize_integer value
  refuse_if (not (is_port number)) (some (num number))

abbrev pub bool_of_text : String → Option Json
bool_of_text text =
    if contains ("true" ∷ "1" ∷ "yes" ∷ "y" ∷ "on" ∷ "да" ∷ "д" ∷ []) text
    then some (bool true)
    else if contains ("false" ∷ "0" ∷ "no" ∷ "n" ∷ "off" ∷ "нет" ∷ "н" ∷ []) text
    then some (bool false)
    else none

-- `_normalize_bool`
unfoldable pub normalize_bool : (String → String) → Json → Option Json
normalize_bool lower (bool b) = some (bool b)
normalize_bool lower (num t) =
    if t == "0"
    then some (bool false)
    else if t == "1"
    then some (bool true)
    else bool_of_text (lower (strip t))
normalize_bool lower value = bool_of_text (lower (strip (py_str value)))

-- HOST_RE, and the tests before it.
abbrev pub is_host : String → Bool
is_host text =
    all_chars (λ c. not (one_of (b'/' ∷ b':' ∷ []) c || is_space c)) text
    && (all_chars (λ c. is_ascii_alnum c || one_of (b'.' ∷ b'-' ∷ []) c) text
        && (leb 1 (text_length text) && leb (text_length text) 253))

-- `_normalize_host_like`
unfoldable pub normalize_host_like : Bool → Json → Option String
normalize_host_like required value =
    let text = strip (text_or_empty value) in
    if text == "" then refuse_if required (some "") else refuse_if (not (is_host text)) (some text)

abbrev pub is_line : ℕ → String → Bool
is_line max_length text =
    all_chars (λ c. not (one_of (13 ∷ 10 ∷ []) c)) text && leb (text_length text) max_length

-- `_normalize_text`
unfoldable pub normalize_text : ℕ → Bool → Json → Option String
normalize_text max_length required value =
    let text = strip (text_or_empty value) in
    if text == ""
    then refuse_if required (some "")
    else refuse_if (not (is_line max_length text)) (some text)

-- `_range_is_active`
unfoldable pub range_is_active : Json → Bool
range_is_active (num t) = is_positive t
range_is_active (str s) =
    let text = strip s in
    if text == ""
    then false
    else if integer_text text
    then is_positive text
    else elim (range_of text) [ none ↦ true | some (start, end) ↦ ltb 0 start || ltb 0 end ]
range_is_active _ = false

unfoldable pub normalized_items : ℕ → List String → Option (List String)
normalized_items max_length [] = some []
normalized_items max_length (item ∷ items) =
    let rest = normalized_items max_length items in
    if item == ""
    then rest
    else normalize_text max_length false (str item) >>= λ text.
        rest >>= λ texts. some (text ∷ texts)

-- `_normalize_string_list`
unfoldable pub normalize_string_list : Json → Option (List String)
unfolding normalized_items
normalize_string_list (str s) =
    if strip s == ""
    then some []
    else normalized_items 32 (map strip (split_at (one_of (b',' ∷ [])) s))
normalize_string_list (arr xs) = normalized_items 32 (map (λ x. strip (py_str x)) (elements xs))
normalize_string_list null = some []
normalize_string_list _ = none
