-- ===== src/Xray/Transport/Lawful/Complete.antt =====
-- The settings of a download have the fields that a client needs.
use xray_vps_manager.Base.{
  String, Bool, true, not, ◌≡◌, refl, arith, Option, none, some, List, [], ◌∷◌, all, contains,
  if◌then◌else◌, eq_iff, ◌==◌, Bool-cases, inl, inr,
}
use xray_vps_manager.Json.{
  Json, null, bool, num, str, arr, obj, dict, Object, truthy, get, put, has_key, has_key-put,
}
use xray_vps_manager.Xray.Transport.{refuse_if}
use xray_vps_manager.Xray.Transport.Values.{normalize_port}
use xray_vps_manager.Xray.Transport.Download.{
  set_to, host_value, normalize_download_tls_settings, normalize_download_reality_settings,
  set_sockopt, lowered, normalize_download_xhttp_settings, set_security, download_fields,
}
use xray_vps_manager.Xray.Transport.Lawful.{required_fields}
use xray_vps_manager.Xray.Transport.Lawful.Values.{holds, holds_any, holds-bind, holds-refuse_if}

abbrev has_all : List String → Object → Bool
has_all keys d = all (has_key d) keys

has_all-put :
    (keys : List String) (d : Object) (key : String) (v : Json)
    → has_all keys d ≡ true
    → has_all keys (put d key v) ≡ true
has_all-put [] d key v h = refl
has_all-put (k ∷ keys) d key v h = ground (arith, has_key-put d key v k, has_all-put keys d key v)

has_all-new :
    (keys : List String) (d : Object) (key : String) (v : Json)
    → has_all keys d ≡ true
    → has_all (key ∷ keys) (put d key v) ≡ true
has_all-new keys d key v h =
    ground (arith, has_key-put d key v key, eq_iff key key, has_all-put keys d key v)

set_to-new :
    (keys : List String) (key : String) (m : Option Json) (d : Object)
    → has_all keys d ≡ true
    → holds (has_all (key ∷ keys)) (set_to key m d) ≡ true
set_to-new keys key none d h = refl
set_to-new keys key (some v) d h = has_all-new keys d key v h

set_sockopt-kept :
    (keys : List String) (v : Json) (d : Object)
    → has_all keys d ≡ true
    → holds (has_all keys) (set_sockopt v d) ≡ true
set_sockopt-kept keys null d h = h
set_sockopt-kept keys (bool b) d h = refl
set_sockopt-kept keys (num t) d h = refl
set_sockopt-kept keys (str s) d h = holds-refuse_if (has_all keys) (not (s == "")) (some d) (λ k. h)
set_sockopt-kept keys (arr xs) d h = refl
set_sockopt-kept keys (obj fs) d h = elim (Bool-cases (truthy (obj fs))) [
  | inl e ↦ rw e (has_all-put keys d "sockopt" (obj fs) h)
  | inr e ↦ rw e h
]

module _ (lower : String → String) where
  set_security-kept :
      (keys : List String) (security : String) (value d : Object)
      → has_all keys d ≡ true
      → holds (has_all keys) (set_security lower security value d) ≡ true
  set_security-kept keys security value d h = elim (Bool-cases (security == "tls")) [
    | inl e ↦ rw e (
        holds-bind (λ s. true) (has_all keys)
          (normalize_download_tls_settings (get value "tlsSettings")) _
          (holds_any (normalize_download_tls_settings (get value "tlsSettings")))
          (λ tls g. elim (Bool-cases (truthy (obj (dict tls)))) [
            | inl t ↦ rw t (has_all-put keys d "tlsSettings" (obj (dict tls)) h)
            | inr t ↦ rw t h
          ]))
    | inr e ↦ rw e (
        holds-bind (λ s. true) (has_all keys)
          (normalize_download_reality_settings (get value "realitySettings")) _
          (holds_any (normalize_download_reality_settings (get value "realitySettings")))
          (λ s g. has_all-put keys d "realitySettings" (obj (dict s)) h))
  ]

  pub download_fields_complete :
      (d : Object) → holds (has_all required_fields) (download_fields lower d) ≡ true
  unfolding download_fields
  download_fields_complete d =
      let security = lowered lower "tls" (get d "security") in
      let network = lowered lower "xhttp" (get d "network") in
      let known = contains ("tls" ∷ "reality" ∷ []) security in
      let raw = get d "port" in
      let port = if truthy raw then raw else num "443" in
      let k1 = "address" ∷ [] in
      let k2 = "port" ∷ k1 in
      let k3 = "network" ∷ k2 in
      let k4 = "security" ∷ k3 in
      holds-bind (has_all k1) (has_all required_fields)
        (set_to "address" (host_value true (get d "address")) []) _
        (set_to-new [] "address" (host_value true (get d "address")) [] refl)
        (λ r1 h1.
          holds-bind (has_all k2) (has_all required_fields) (set_to "port" (normalize_port port) r1)
            _ (set_to-new k1 "port" (normalize_port port) r1 h1)
            (λ r2 h2.
              holds-bind (has_all k3) (has_all required_fields)
                (refuse_if (not (network == "xhttp")) (some (put r2 "network" (str "xhttp")))) _
                (holds-refuse_if (has_all k3) (not (network == "xhttp"))
                  (some (put r2 "network" (str "xhttp")))
                  (λ n. has_all-new k2 r2 "network" (str "xhttp") h2))
                (λ r3 h3.
                  holds-bind (has_all k4) (has_all required_fields)
                    (refuse_if (not known) (some (put r3 "security" (str security)))) _
                    (holds-refuse_if (has_all k4) (not known)
                      (some (put r3 "security" (str security)))
                      (λ n. has_all-new k3 r3 "security" (str security) h3))
                    (λ r4 h4.
                      holds-bind (has_all k4) (has_all required_fields)
                        (set_security lower security d r4) _ (set_security-kept k4 security d r4 h4)
                        (λ r5 h5.
                          holds-bind (λ x. true) (has_all required_fields)
                            (normalize_download_xhttp_settings lower (get d "xhttpSettings")) _
                            (holds_any
                              (normalize_download_xhttp_settings lower (get d "xhttpSettings")))
                            (λ xhttp u.
                              set_sockopt-kept required_fields (get d "sockopt")
                                (put r5 "xhttpSettings" (obj (dict xhttp)))
                                (has_all-new k4 r5 "xhttpSettings" (obj (dict xhttp)) h5)))))))
