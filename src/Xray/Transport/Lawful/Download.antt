-- ===== src/Xray/Transport/Lawful/Download.antt =====
-- The parts of the settings of a download.
use xray_vps_manager.Base.{
  String, Bool, true, false, not, ◌≡◌, refl, arith, Option, none, some, List, [], ◌∷◌, all, any,
  map, contains, ◌==◌, Bool-cases, inl, inr,
}
use xray_vps_manager.Json.{
  Json, null, bool, num, str, arr, obj, array, elements, members, dict, members-dict, Object,
  truthy, strip, get, has_key, py_str,
}
use xray_vps_manager.Clients.Email.{split_at}
use xray_vps_manager.Xray.Transport.{
  is_path, one_of, xhttp_modes, normalize_xhttp_path, normalize_xhttp_mode,
}
use xray_vps_manager.Xray.Transport.Values.{
  is_line, is_host, normalize_text, normalize_host_like, normalized_items, normalize_string_list,
}
use xray_vps_manager.Xray.Transport.Extra.{set_if, with_keys, xhttp_extra_keys, extra_fields}
use xray_vps_manager.Xray.Transport.Download.{
  as_str, set_to, host_value, line_value, xhttp_keys, put_list, tls_fields, reality_fields,
  object_or_empty, set_sockopt, nested_extra, xhttp_fields, normalize_download_xhttp_settings,
}
use xray_vps_manager.Xray.Transport.Lawful.{
  Field, is_str, is_object, or_empty, extra_field, tls_field, reality_field, xhttp_field,
  download_field,
}
use xray_vps_manager.Xray.Transport.Lawful.Values.{
  holds, holds_any, holds-bind, holds-refuse_if, normalize_host_like-is_host,
  normalize_host_like-required, normalize_text-is_line, normalize_xhttp_path-is_path,
  normalize_xhttp_mode-is_mode,
}
use xray_vps_manager.Xray.Transport.Lawful.Fields.{
  put-all, set_if-all, set_object_if-all, with_keys-all, extra_fields-all,
}

as_str-holds :
    (p : String → Bool) (m : Option String) → holds p m ≡ true → holds (is_str p) (as_str m) ≡ true
as_str-holds p none h = refl
as_str-holds p (some s) h = h

pub set_to-all :
    (p : Field → Bool) (key : String) (m : Option Json) (result : Object)
    → holds (λ v. p (key, v)) m ≡ true
    → all p result ≡ true
    → holds (all p) (set_to key m result) ≡ true
set_to-all p key none result h k = refl
set_to-all p key (some v) result h k = put-all p result key v h k

short_line : (v : Json) → holds (is_str (is_line 32)) (as_str (normalize_text 32 false v)) ≡ true
short_line v =
    as_str-holds (is_line 32) (normalize_text 32 false v) (normalize_text-is_line 32 false v)

some_host : (v : Json) → holds (is_str (or_empty is_host)) (host_value false v) ≡ true
some_host v =
    as_str-holds (or_empty is_host) (normalize_host_like false v) (normalize_host_like-is_host v)

pub a_host : (v : Json) → holds (is_str is_host) (host_value true v) ≡ true
a_host v = as_str-holds is_host (normalize_host_like true v) (normalize_host_like-required v)

a_path : (v : Json) → holds (is_str is_path) (as_str (normalize_xhttp_path v)) ≡ true
a_path v = as_str-holds is_path (normalize_xhttp_path v) (normalize_xhttp_path-is_path v)

normalized_items-lines :
    (items : List String) → holds (all (is_line 32)) (normalized_items 32 items) ≡ true
unfolding normalized_items
normalized_items-lines [] = refl
normalized_items-lines (item ∷ items) = elim (Bool-cases (item == "")) [
  | inl e ↦ rw e (normalized_items-lines items)
  | inr e ↦ rw e (
      holds-bind (is_line 32) (all (is_line 32)) (normalize_text 32 false (str item)) _
        (normalize_text-is_line 32 false (str item))
        (λ text h.
          holds-bind (all (is_line 32)) (all (is_line 32)) (normalized_items 32 items) _
            (normalized_items-lines items) (λ texts g. rw (h, g))))
]

normalize_string_list-lines : (v : Json) → holds (all (is_line 32)) (normalize_string_list v) ≡ true
unfolding normalize_string_list
normalize_string_list-lines null = refl
normalize_string_list-lines (bool b) = refl
normalize_string_list-lines (num t) = refl
normalize_string_list-lines (str s) = elim (Bool-cases (strip s == "")) [
  | inl e ↦ rw e
  | inr e ↦ rw e (normalized_items-lines (map strip (split_at (one_of (b',' ∷ [])) s)))
]
normalize_string_list-lines (arr xs) =
    normalized_items-lines (map (λ x. strip (py_str x)) (elements xs))
normalize_string_list-lines (obj fs) = refl

all_texts :
    (p : String → Bool) (ts : List String)
    → all p ts ≡ true
    → all (is_str p) (elements (array (map str ts))) ≡ true
all_texts p [] h = refl
all_texts p (t ∷ ts) h = ground (arith, all_texts p ts)

put_list-all :
    (ts : List String) (result : Object)
    → all (is_line 32) ts ≡ true
    → all tls_field result ≡ true
    → all tls_field (put_list "alpn" ts result) ≡ true
put_list-all [] result h k = k
put_list-all (t ∷ ts) result h k =
    put-all tls_field result "alpn" (arr (array (map str (t ∷ ts))))
      (all_texts (is_line 32) (t ∷ ts) h) k

pub tls_fields-all : (d : Object) → holds (all tls_field) (tls_fields d) ≡ true
unfolding tls_fields
tls_fields-all d =
    let next = holds-bind {A = Object} {B = Object} (all tls_field) (all tls_field) in
    next (set_if "serverName" (get d "serverName") (host_value false) []) _
      (set_if-all tls_field "serverName" (get d "serverName") (host_value false) []
        (some_host (get d "serverName")) refl)
      (λ r1 h1.
        next (set_if "fingerprint" (get d "fingerprint") (line_value "fingerprint" false) r1) _
          (set_if-all tls_field "fingerprint" (get d "fingerprint") (line_value "fingerprint" false)
            r1 (short_line (get d "fingerprint")) h1)
          (λ r2 h2.
            holds-bind (all (is_line 32)) (all tls_field) (normalize_string_list (get d "alpn")) _
              (normalize_string_list-lines (get d "alpn")) (λ alpn h. put_list-all alpn r2 h h2)))

pub reality_fields-all : (d : Object) → holds (all reality_field) (reality_fields d) ≡ true
unfolding reality_fields
reality_fields-all d =
    let next = holds-bind {A = Object} {B = Object} (all reality_field) (all reality_field) in
    let key = normalize_text 128 true (get d "publicKey") in
    next (set_to "serverName" (host_value true (get d "serverName")) []) _
      (set_to-all reality_field "serverName" (host_value true (get d "serverName")) []
        (a_host (get d "serverName")) refl)
      (λ r1 h1.
        next (set_to "publicKey" (line_value "publicKey" true (get d "publicKey")) r1) _
          (set_to-all reality_field "publicKey" (as_str key) r1
            (as_str-holds (is_line 128) key (normalize_text-is_line 128 true (get d "publicKey")))
            h1)
          (λ r2 h2.
            next (set_if "shortId" (get d "shortId") (line_value "shortId" false) r2) _
              (set_if-all reality_field "shortId" (get d "shortId") (line_value "shortId" false) r2
                (short_line (get d "shortId")) h2)
              (λ r3 h3.
                next
                  (set_if "fingerprint" (get d "fingerprint") (line_value "fingerprint" false) r3) _
                  (set_if-all reality_field "fingerprint" (get d "fingerprint")
                    (line_value "fingerprint" false) r3 (short_line (get d "fingerprint")) h3)
                  (λ r4 h4.
                    set_if-all reality_field "spiderX" (get d "spiderX")
                      (λ v. as_str (normalize_xhttp_path v)) r4 (a_path (get d "spiderX")) h4))))

pub set_sockopt-all :
    (v : Json) (result : Object)
    → all download_field result ≡ true
    → holds (all download_field) (set_sockopt v result) ≡ true
set_sockopt-all null result h = h
set_sockopt-all (bool b) result h = refl
set_sockopt-all (num t) result h = refl
set_sockopt-all (str s) result h =
    holds-refuse_if (all download_field) (not (s == "")) (some result) (λ k. h)
set_sockopt-all (arr xs) result h = refl
set_sockopt-all (obj fs) result h = elim (Bool-cases (truthy (obj fs))) [
  | inl e ↦ rw e (put-all download_field result "sockopt" (obj fs) refl h)
  | inr e ↦ rw e h
]

pub is_object-dict :
    (p : Object → Bool) (d : Object) → p d ≡ true → is_object p (obj (dict d)) ≡ true
is_object-dict p d h = rw (members-dict d) h

module _ (lower : String → String) where
  nested_extra-all : (v : Json) → holds (all extra_field) (nested_extra lower v) ≡ true
  unfolding nested_extra
  nested_extra-all null = refl
  nested_extra-all (bool b) = refl
  nested_extra-all (num t) = refl
  nested_extra-all (str s) = refl
  nested_extra-all (arr xs) = refl
  nested_extra-all (obj fs) =
      holds-refuse_if (all extra_field) (has_key (members fs) "downloadSettings")
        (with_keys xhttp_extra_keys (extra_fields lower) (obj fs))
        (λ n.
          with_keys-all (all extra_field) xhttp_extra_keys (extra_fields lower) (obj fs) refl
            (extra_fields-all lower))

  xhttp_fields-all : (d : Object) → holds (all xhttp_field) (xhttp_fields lower d) ≡ true
  unfolding xhttp_fields
  xhttp_fields-all d =
      let next = holds-bind {A = Object} {B = Object} (all xhttp_field) (all xhttp_field) in
      let path = as_str (normalize_xhttp_path (get d "path")) in
      let mode = as_str (normalize_xhttp_mode lower (get d "mode")) in
      holds-refuse_if (all xhttp_field) (any (λ p. not (contains xhttp_keys p.0)) d) _ (λ n.
        next (set_to "path" path []) _
          (set_to-all xhttp_field "path" path [] (a_path (get d "path")) refl)
          (λ r1 h1.
            next (set_to "mode" mode r1) _
              (set_to-all xhttp_field "mode" mode r1
                (as_str-holds (contains xhttp_modes) (normalize_xhttp_mode lower (get d "mode"))
                  (normalize_xhttp_mode-is_mode lower (get d "mode")))
                h1)
              (λ r2 h2.
                next (set_if "host" (get d "host") (host_value false) r2) _
                  (set_if-all xhttp_field "host" (get d "host") (host_value false) r2
                    (some_host (get d "host")) h2)
                  (λ r3 h3.
                    set_object_if-all xhttp_field (all extra_field) "extra" (get d "extra")
                      (nested_extra lower) r3 (is_object-dict (all extra_field))
                      (nested_extra-all (get d "extra")) h3))))

  pub normalize_download_xhttp_settings-all :
      (v : Json) → holds (all xhttp_field) (normalize_download_xhttp_settings lower v) ≡ true
  unfolding normalize_download_xhttp_settings
  normalize_download_xhttp_settings-all v =
      holds-bind (λ d. true) (all xhttp_field) (object_or_empty v) (xhttp_fields lower)
        (holds_any (object_or_empty v)) (λ d h. xhttp_fields-all d)
