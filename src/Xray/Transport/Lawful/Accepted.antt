-- ===== src/Xray/Transport/Lawful/Accepted.antt =====
-- What `normalize_xhttp_extra` accepts.
use xray_vps_manager.Base.{
  none, Option, String, Bool, true, false, not, ◌≡◌, refl, subst, arith, some, [], ◌∷◌, all,
  contains, if◌then◌else◌, eq_iff, ◌==◌, Bool-cases, inl, inr,
}
use xray_vps_manager.Json.{has_key, Json, num, str, obj, dict, Object, truthy, get, put}
use xray_vps_manager.Xray.Transport.{refuse_if}
use xray_vps_manager.Xray.Transport.Values.{is_empty_extra_value, normalize_port}
use xray_vps_manager.Xray.Transport.Extra.{xhttp_extra_keys, extra_fields}
use xray_vps_manager.Xray.Transport.Download.{
  set_to, host_value, tls_keys, reality_keys, download_keys, tls_fields,
  normalize_download_tls_settings, reality_fields, normalize_download_reality_settings, lowered,
  normalize_download_xhttp_settings, set_security, download_fields,
  normalize_xhttp_download_settings, normalize_xhttp_extra,
}
use xray_vps_manager.Xray.Transport.Lawful.Complete.{download_fields_complete}
use xray_vps_manager.Xray.Transport.Lawful.{
  is_download, required_fields, extra_field, tls_field, reality_field, xhttp_field, download_field,
  lawful_field,
}
use xray_vps_manager.Xray.Transport.Lawful.Values.{holds, holds-bind, normalize_port-is_port}
use xray_vps_manager.Xray.Transport.Lawful.Fields.{put-all, with_keys-all, extra_fields-all}
use xray_vps_manager.Xray.Transport.Lawful.Download.{
  set_to-all, a_host, tls_fields-all, reality_fields-all, set_sockopt-all, is_object-dict,
  normalize_download_xhttp_settings-all,
}

tls-all : (v : Json) → holds (all tls_field) (normalize_download_tls_settings v) ≡ true
unfolding normalize_download_tls_settings
tls-all v = with_keys-all (all tls_field) tls_keys tls_fields v refl tls_fields-all

reality-all : (v : Json) → holds (all reality_field) (normalize_download_reality_settings v) ≡ true
unfolding normalize_download_reality_settings
reality-all v =
    with_keys-all (all reality_field) reality_keys reality_fields v refl reality_fields-all

allowed_text :
    (ok : Bool) (key text : String) (result : Object)
    → (ok ≡ true → download_field (key, str text) ≡ true)
    → all download_field result ≡ true
    → holds (all download_field) (refuse_if (not ok) (some (put result key (str text)))) ≡ true
allowed_text true key text result h k = put-all download_field result key (str text) (h refl) k
allowed_text false key text result h k = refl

extra_is_lawful : (d : Object) → all extra_field d ≡ true → all lawful_field d ≡ true
extra_is_lawful [] h = refl
extra_is_lawful ((key, v) ∷ d) h =
    let rest : all lawful_field d ≡ true = extra_is_lawful d (ground arith) in
    let first : extra_field (key, v) ≡ true = ground arith in
    elim (Bool-cases (key == "downloadSettings")) [
      | inl e ↦
          let bad : false ≡ true =
            subst (λ k. extra_field (k, v) ≡ true) ((eq_iff key "downloadSettings").0 e) first in
          absurd (cc)
      | inr e ↦ rw (e, first, rest)
    ]

holds-both :
    (q p r : Object → Bool) (m : Option Object)
    → holds p m ≡ true
    → holds q m ≡ true
    → ((d : Object) → p d ≡ true → q d ≡ true → r d ≡ true)
    → holds r m ≡ true
holds-both q p r none h k f = refl
holds-both q p r (some d) h k f = f d h k

is_download_complete :
    (d : Object)
    → all download_field d ≡ true
    → all (has_key d) required_fields ≡ true
    → is_download d ≡ true
is_download_complete d h k =
    rw h (elim (Bool-cases (truthy (obj (dict d)))) [ inl t ↦ rw t k | inr t ↦ rw t ])

module _ (lower : String → String) where
  set_security-all :
      (security : String) (d result : Object)
      → all download_field result ≡ true
      → holds (all download_field) (set_security lower security d result) ≡ true
  set_security-all security d result h = elim (Bool-cases (security == "tls")) [
    | inl e ↦ rw e (
        holds-bind (all tls_field) (all download_field)
          (normalize_download_tls_settings (get d "tlsSettings")) _ (tls-all (get d "tlsSettings"))
          (λ tls g. elim (Bool-cases (truthy (obj (dict tls)))) [
            | inl t ↦ rw t (
                put-all download_field result "tlsSettings" (obj (dict tls))
                  (is_object-dict (all tls_field) tls g) h)
            | inr t ↦ rw t h
          ]))
    | inr e ↦ rw e (
        holds-bind (all reality_field) (all download_field)
          (normalize_download_reality_settings (get d "realitySettings")) _
          (reality-all (get d "realitySettings"))
          (λ s g.
            put-all download_field result "realitySettings" (obj (dict s))
              (is_object-dict (all reality_field) s g) h))
  ]

  download_fields-all : (d : Object) → holds (all download_field) (download_fields lower d) ≡ true
  unfolding download_fields
  download_fields-all d =
      let next = holds-bind {A = Object} {B = Object} (all download_field) (all download_field) in
      let security = lowered lower "tls" (get d "security") in
      let network = lowered lower "xhttp" (get d "network") in
      let known = contains ("tls" ∷ "reality" ∷ []) security in
      let raw = get d "port" in
      let port = if truthy raw then raw else num "443" in
      next (set_to "address" (host_value true (get d "address")) []) _
        (set_to-all download_field "address" (host_value true (get d "address")) []
          (a_host (get d "address")) refl)
        (λ r1 h1.
          next (set_to "port" (normalize_port port) r1) _
            (set_to-all download_field "port" (normalize_port port) r1 (normalize_port-is_port port)
              h1)
            (λ r2 h2.
              next (refuse_if (not (network == "xhttp")) (some (put r2 "network" (str "xhttp")))) _
                (allowed_text (network == "xhttp") "network" "xhttp" r2 (λ k. refl) h2)
                (λ r3 h3.
                  next (refuse_if (not known) (some (put r3 "security" (str security)))) _
                    (allowed_text known "security" security r3 (λ k. k) h3)
                    (λ r4 h4.
                      next (set_security lower security d r4) _ (set_security-all security d r4 h4)
                        (λ r5 h5.
                          holds-bind (all xhttp_field) (all download_field)
                            (normalize_download_xhttp_settings lower (get d "xhttpSettings")) _
                            (normalize_download_xhttp_settings-all lower (get d "xhttpSettings"))
                            (λ xhttp h6.
                              set_sockopt-all (get d "sockopt")
                                (put r5 "xhttpSettings" (obj (dict xhttp)))
                                (put-all download_field r5 "xhttpSettings" (obj (dict xhttp))
                                  (is_object-dict (all xhttp_field) xhttp h6) h5)))))))

  download_fields-is_download : (d : Object) → holds is_download (download_fields lower d) ≡ true
  download_fields-is_download d =
      holds-both (λ r. all (has_key r) required_fields) (all download_field) is_download
        (download_fields lower d) (download_fields-all d) (download_fields_complete lower d)
        (λ r h k. is_download_complete r h k)

  download-all : (v : Json) → holds is_download (normalize_xhttp_download_settings lower v) ≡ true
  unfolding normalize_xhttp_download_settings
  download-all v =
      with_keys-all is_download download_keys (download_fields lower) v refl
        download_fields-is_download

  extra-all : (v : Json) → holds (all lawful_field) (normalize_xhttp_extra lower v) ≡ true
  unfolding normalize_xhttp_extra
  extra-all v = with_keys-all (all lawful_field) xhttp_extra_keys _ v refl (λ d.
      holds-bind (all extra_field) (all lawful_field) (extra_fields lower d) _
        (extra_fields-all lower d)
        (λ result h. elim (Bool-cases (is_empty_extra_value (get d "downloadSettings"))) [
          | inl e ↦ rw e (extra_is_lawful result h)
          | inr e ↦ rw e (
              holds-bind is_download (all lawful_field)
                (normalize_xhttp_download_settings lower (get d "downloadSettings")) _
                (download-all (get d "downloadSettings"))
                (λ s g.
                  put-all lawful_field result "downloadSettings" (obj (dict s))
                    (is_object-dict is_download s g) (extra_is_lawful result h)))
        ]))

  -- Where `normalize_xhttp_extra` accepts the extra settings, every field of its result is one that
  -- Xray knows, with a value of its kind: headers with a name of the right form and a text of one
  -- line; booleans; for `scMaxBufferedPosts` a number from 0 on; for `hKeepAlivePeriod` any integer;
  -- for all other limits a number from 0 on or a range whose end is not below its start, and for
  -- `scStreamUpServerSecs` -1 as well; and an `xmux` that does not limit both the concurrency and
  -- the connections. In the settings of a download the address is a host, the port from 1 to 65535,
  -- the network `xhttp`, the security `tls` or `reality`, and the fields of its sections are of
  -- their kinds too; where there are any, these four and the section of XHTTP are there.
  pub normalize_xhttp_extra-lawful :
      (value : Json) (result : Object)
      → normalize_xhttp_extra lower value ≡ some result
      → all lawful_field result ≡ true
  normalize_xhttp_extra-lawful value result e =
      subst (λ o. holds (all lawful_field) o ≡ true) e (extra-all value)
