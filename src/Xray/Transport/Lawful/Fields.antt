-- ===== src/Xray/Transport/Lawful/Fields.antt =====
-- The extra settings without those of a download: every field that is set is lawful.
use xray_vps_manager.Base.{
  String, Bool, true, false, not, ◌≡◌, refl, subst, sym, arith, Option, some, List, [], ◌∷◌, all,
  any, contains, eq_iff, ◌==◌, Bool-cases, inl, inr,
}
use xray_vps_manager.Json.{
  Json, null, bool, num, str, arr, obj, members, dict, members-dict, Object, truthy, strip, get,
  put,
}
use xray_vps_manager.Xray.Transport.{◌>>=◌, refuse_if}
use xray_vps_manager.Xray.Transport.Values.{
  is_empty_extra_value, integer_text, is_line, normalize_text, normalize_integer,
  normalize_non_negative_range, normalize_non_negative_integer, normalize_bool,
}
use xray_vps_manager.Xray.Transport.Extra.{
  set_if, set_object_if, with_keys, is_header_name, headers_from, normalize_xhttp_headers,
  xmux_keys, xmux_value, xmux_from, in_conflict, normalize_xmux, extra_fields,
}
use xray_vps_manager.Xray.Transport.Lawful.{
  Field, is_integer, header_field, xmux_field, is_xmux, extra_field,
}
use xray_vps_manager.Xray.Transport.Lawful.Values.{
  holds, holds-bind, holds-refuse_if, normalize_non_negative_range-is_range,
  normalize_integer-integer, normalize_non_negative_integer-is_count, normalize_bool-is_bool,
  normalize_text-is_line,
}

pub put-all :
    (p : Field → Bool) (d : Object) (key : String) (v : Json)
    → p (key, v) ≡ true
    → all p d ≡ true
    → all p (put d key v) ≡ true
unfolding put
put-all p [] key v h k = ground arith
put-all p ((j, w) ∷ d) key v h k = elim (Bool-cases (j == key)) [
  | inl e ↦
      let here : p (j, v) ≡ true = subst (λ x. p (x, v) ≡ true) (sym ((eq_iff j key).0 e)) h in
      rw e (ground arith)
  | inr e ↦ rw e (ground (arith, put-all p d key v h))
]

pub set_if-all :
    (p : Field → Bool) (key : String) (value : Json) (f : Json → Option Json) (result : Object)
    → holds (λ v. p (key, v)) (f value) ≡ true
    → all p result ≡ true
    → holds (all p) (set_if key value f result) ≡ true
unfolding set_if
set_if-all p key value f result h k = elim (Bool-cases (is_empty_extra_value value)) [
  | inl e ↦ rw e k
  | inr e ↦
      rw e (holds-bind (λ v. p (key, v)) (all p) (f value) _ h (λ v g. put-all p result key v g k))
]

pub set_object_if-all :
    (p : Field → Bool) (q : Object → Bool) (key : String) (value : Json) (f : Json → Option Object)
    (result : Object)
    → ((d : Object) → q d ≡ true → p (key, obj (dict d)) ≡ true)
    → holds q (f value) ≡ true
    → all p result ≡ true
    → holds (all p) (set_object_if key value f result) ≡ true
unfolding set_object_if
set_object_if-all p q key value f result same h k = elim (Bool-cases (is_empty_extra_value value)) [
  | inl e ↦ rw e k
  | inr e ↦ rw e (
      holds-bind q (all p) (f value) _ h (λ d g. elim (Bool-cases (truthy (obj (dict d)))) [
        | inl t ↦ rw t (put-all p result key (obj (dict d)) (same d g) k)
        | inr t ↦ rw t k
      ]))
]

pub with_keys-all :
    (p : Object → Bool) (keys : List String) (f : Object → Option Object) (value : Json)
    → p [] ≡ true
    → ((d : Object) → holds p (f d) ≡ true)
    → holds p (with_keys keys f value) ≡ true
unfolding with_keys
with_keys-all p keys f null h k = h
with_keys-all p keys f (bool b) h k = elim (Bool-cases b) [ inl e ↦ rw e | inr e ↦ rw e h ]
with_keys-all p keys f (num t) h k = elim (Bool-cases (truthy (num t))) [
  | inl e ↦ rw e
  | inr e ↦ rw e h
]
with_keys-all p keys f (str t) h k = elim (Bool-cases (truthy (str t))) [
  | inl e ↦ rw e
  | inr e ↦ rw e h
]
with_keys-all p keys f (arr xs) h k = elim (Bool-cases (truthy (arr xs))) [
  | inl e ↦ rw e
  | inr e ↦ rw e h
]
with_keys-all p keys f (obj fs) h k = elim (Bool-cases (truthy (obj fs))) [
  | inl e ↦ rw e (holds-refuse_if p _ _ (λ g. k (members fs)))
  | inr e ↦ rw e h
]

headers_from-all :
    (raw result : Object)
    → all header_field result ≡ true
    → holds (all header_field) (headers_from raw result) ≡ true
unfolding headers_from
headers_from-all [] result h = h
headers_from-all ((raw_key, raw_value) ∷ rest) result h =
    let key = strip raw_key in
    holds-refuse_if (all header_field) (not (is_header_name key)) _ (λ n.
      holds-bind (is_line 512) (all header_field) (normalize_text 512 false raw_value) _
        (normalize_text-is_line 512 false raw_value)
        (λ text l.
          headers_from-all rest (put result key (str text))
            (put-all header_field result key (str text) (ground arith) h)))

normalize_xhttp_headers-all :
    (v : Json) → holds (all header_field) (normalize_xhttp_headers v) ≡ true
unfolding normalize_xhttp_headers
normalize_xhttp_headers-all null = refl
normalize_xhttp_headers-all (bool b) = elim (Bool-cases b) [ inl e ↦ rw e | inr e ↦ rw e ]
normalize_xhttp_headers-all (num t) = elim (Bool-cases (truthy (num t))) [
  | inl e ↦ rw e
  | inr e ↦ rw e
]
normalize_xhttp_headers-all (str t) = elim (Bool-cases (truthy (str t))) [
  | inl e ↦ rw e
  | inr e ↦ rw e
]
normalize_xhttp_headers-all (arr xs) = elim (Bool-cases (truthy (arr xs))) [
  | inl e ↦ rw e
  | inr e ↦ rw e
]
normalize_xhttp_headers-all (obj fs) = headers_from-all (members fs) [] refl

xmux_value-lawful :
    (key : String) (v : Json)
    → contains xmux_keys key ≡ true
    → holds (λ w. xmux_field (key, w)) (xmux_value key v) ≡ true
xmux_value-lawful key v h = elim (Bool-cases (key == "hKeepAlivePeriod")) [
  | inl e ↦
      rw (e, h)
        (holds-bind integer_text is_integer (normalize_integer v) _ (normalize_integer-integer v)
          (λ t i. i))
  | inr e ↦ rw (e, h) (normalize_non_negative_range-is_range false v)
]

xmux_from-all :
    (keys : List String) (raw xmux : Object)
    → all (contains xmux_keys) keys ≡ true
    → all xmux_field xmux ≡ true
    → holds (all xmux_field) (xmux_from keys raw xmux) ≡ true
unfolding xmux_from
xmux_from-all [] raw xmux h k = k
xmux_from-all (key ∷ keys) raw xmux h k =
    let known : contains xmux_keys key ≡ true = ground arith in
    let rest : all (contains xmux_keys) keys ≡ true = ground arith in
    holds-bind (all xmux_field) (all xmux_field) (set_if key (get raw key) (xmux_value key) xmux) _
      (set_if-all xmux_field key (get raw key) (xmux_value key) xmux
        (xmux_value-lawful key (get raw key) known) k)
      (λ next g. xmux_from-all keys raw next rest g)

normalize_xmux-is_xmux : (v : Json) → holds is_xmux (normalize_xmux v) ≡ true
unfolding normalize_xmux
normalize_xmux-is_xmux null = refl
normalize_xmux-is_xmux (bool b) = refl
normalize_xmux-is_xmux (num t) = refl
normalize_xmux-is_xmux (str s) = refl
normalize_xmux-is_xmux (arr xs) = refl
normalize_xmux-is_xmux (obj fs) =
    let unknown = any (λ p. not (contains xmux_keys p.0)) (members fs) in
    let last : Object → Option Object = λ xmux. refuse_if (in_conflict xmux) (some xmux) in
    holds-refuse_if is_xmux unknown (xmux_from xmux_keys (members fs) [] >>= last) (λ n.
      holds-bind (all xmux_field) is_xmux (xmux_from xmux_keys (members fs) []) last
        (xmux_from-all xmux_keys (members fs) [] refl refl)
        (λ xmux g. holds-refuse_if is_xmux (in_conflict xmux) (some xmux) (λ c. rw (g, c))))

module _ (lower : String → String) where
  pub extra_fields-all : (d : Object) → holds (all extra_field) (extra_fields lower d) ≡ true
  unfolding extra_fields
  extra_fields-all d =
      let range = normalize_non_negative_range-is_range in
      let next = holds-bind {A = Object} {B = Object} (all extra_field) (all extra_field) in
      let set = set_if-all extra_field in
      next (set_object_if "headers" (get d "headers") normalize_xhttp_headers []) _
        (set_object_if-all extra_field (all header_field) "headers" (get d "headers")
          normalize_xhttp_headers [] (λ h g. rw (members-dict h) g)
          (normalize_xhttp_headers-all (get d "headers")) refl)
        (λ r1 h1.
          next
            (set_if "xPaddingBytes" (get d "xPaddingBytes") (normalize_non_negative_range false) r1)
            _
            (set "xPaddingBytes" (get d "xPaddingBytes") (normalize_non_negative_range false) r1
              (range false (get d "xPaddingBytes")) h1)
            (λ r2 h2.
              next (set_if "noGRPCHeader" (get d "noGRPCHeader") (normalize_bool lower) r2) _
                (set "noGRPCHeader" (get d "noGRPCHeader") (normalize_bool lower) r2
                  (normalize_bool-is_bool lower (get d "noGRPCHeader")) h2)
                (λ r3 h3.
                  next (set_if "noSSEHeader" (get d "noSSEHeader") (normalize_bool lower) r3) _
                    (set "noSSEHeader" (get d "noSSEHeader") (normalize_bool lower) r3
                      (normalize_bool-is_bool lower (get d "noSSEHeader")) h3)
                    (λ r4 h4.
                      next
                        (set_if "scMaxEachPostBytes" (get d "scMaxEachPostBytes")
                          (normalize_non_negative_range false) r4)
                        _
                        (set "scMaxEachPostBytes" (get d "scMaxEachPostBytes")
                          (normalize_non_negative_range false) r4
                          (range false (get d "scMaxEachPostBytes")) h4)
                        (λ r5 h5.
                          next
                            (set_if "scMinPostsIntervalMs" (get d "scMinPostsIntervalMs")
                              (normalize_non_negative_range false) r5)
                            _
                            (set "scMinPostsIntervalMs" (get d "scMinPostsIntervalMs")
                              (normalize_non_negative_range false) r5
                              (range false (get d "scMinPostsIntervalMs")) h5)
                            (λ r6 h6.
                              next
                                (set_if "scMaxBufferedPosts" (get d "scMaxBufferedPosts")
                                  normalize_non_negative_integer r6)
                                _
                                (set "scMaxBufferedPosts" (get d "scMaxBufferedPosts")
                                  normalize_non_negative_integer r6
                                  (normalize_non_negative_integer-is_count
                                    (get d "scMaxBufferedPosts"))
                                  h6)
                                (λ r7 h7.
                                  next
                                    (set_if "scStreamUpServerSecs" (get d "scStreamUpServerSecs")
                                      (normalize_non_negative_range true) r7)
                                    _
                                    (set "scStreamUpServerSecs" (get d "scStreamUpServerSecs")
                                      (normalize_non_negative_range true) r7
                                      (range true (get d "scStreamUpServerSecs")) h7)
                                    (λ r8 h8.
                                      set_object_if-all extra_field is_xmux "xmux" (get d "xmux")
                                        normalize_xmux r8 (λ x g. rw (members-dict x) g)
                                        (normalize_xmux-is_xmux (get d "xmux")) h8))))))))
