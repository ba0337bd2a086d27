-- ===== src/Clients/Email/RoundTrip.antt =====
-- An email gives back the name and the time of creation that it was made of (clients/models.py).
use xray_vps_manager.Base.{
  get_or, inr, sym, eq_iff, inl, ◌++◌, Bool-cases, ap, ◌∙◌, ◌==◌, all, List, not, String, ◌<>◌, ◌≡◌,
  refl, arith, Bool, true, false, ◌||◌, [], ◌∷◌,
}
use xray_vps_manager.Clients.Email.{
  add_parts, connection_part, created_part, email_metadata, lookup, insert, joined, Metadata,
  email_for_client, add_part, split_email, is_bar, is_equals, split_at, partition,
}
use xray_vps_manager.Base.Assoc.{lookup, insert}
use Prim.Native.Char.{Char}
use Prim.Native.String.append

abbrev pub has_char : (Char → Bool) → String → Bool
has_char p String.[] = false
has_char p (String.◌∷◌ c s) = p c || has_char p s

abbrev bar : Char
bar = "|"

abbrev equals : Char
equals = "="

split_at-plain : (sep : Char → Bool) (a : String) → has_char sep a ≡ false → split_at sep a ≡ a ∷ []
unfolding split_at
split_at-plain sep String.[] h = refl
split_at-plain sep (String.◌∷◌ c a) h = ground (arith, split_at-plain sep a)

split_at-bar :
    (a t : String)
    → has_char is_bar a ≡ false
    → split_at is_bar (a <> ("|" <> t)) ≡ a ∷ split_at is_bar t
unfolding split_at
split_at-bar String.[] t h = rw (append.nil ("|" <> t), append.cons bar "" t, append.nil t) refl
split_at-bar (String.◌∷◌ c a) t h =
    rw (append.cons c a ("|" <> t)) (ground (arith, split_at-bar a t))

partition-equals :
    (k v : String) → has_char is_equals k ≡ false → partition (k <> ("=" <> v)) ≡ (k, true, v)
unfolding partition
partition-equals String.[] v h =
    rw (append.nil ("=" <> v), append.cons equals "" v, append.nil v) refl
partition-equals (String.◌∷◌ c k) v h =
    rw (append.cons c k ("=" <> v)) (ground (arith, partition-equals k v))

has_char-append :
    (p : Char → Bool) (a b : String) → has_char p (a <> b) ≡ (has_char p a || has_char p b)
has_char-append p String.[] b = rw (append.nil b) refl
has_char-append p (String.◌∷◌ c a) b =
    rw (append.cons c a b) (ground (arith, has_char-append p a b))

abbrev plain : String → Bool
plain s = not (has_char is_bar s)

-- Parts without bars come back from the text that joins them.
split_at-joined :
    (first : String) (parts : List String)
    → plain first ≡ true
    → all plain parts ≡ true
    → split_at is_bar (joined first parts) ≡ first ∷ parts
split_at-joined first [] h k = split_at-plain is_bar first (ground arith)
split_at-joined first (part ∷ parts) h k =
    split_at-bar first (joined part parts) (ground arith)
    ∙ ap (λ ps. first ∷ ps) (split_at-joined part parts (ground arith) (ground arith))

plain-part : (k v : String) → plain k ≡ true → plain v ≡ true → plain (k <> ("=" <> v)) ≡ true
plain-part k v h l =
    ground (arith, has_char-append is_bar k ("=" <> v), has_char-append is_bar "=" v)

add_part-key :
    (k v : String) (metadata : Metadata)
    → has_char is_equals k ≡ false
    → (k == "") ≡ false
    → add_part (k <> ("=" <> v)) metadata ≡ insert metadata k v
unfolding add_part
add_part-key k v metadata h n = rw (partition-equals k v h, n) refl

abbrev parts_of : String → String → List String
parts_of created tag = created_part created ++ connection_part tag

parts_of-plain :
    (created tag : String)
    → plain created ≡ true
    → plain tag ≡ true
    → all plain (parts_of created tag) ≡ true
parts_of-plain created tag k l =
    let a = plain-part "created" created refl k in
    let b = plain-part "connection" tag refl l in
    elim (Bool-cases (created == "")) [
      | inl e ↦ elim (Bool-cases (tag == "")) [
        | inl f ↦ rw (e, f) refl
        | inr f ↦ rw (e, f) (rw b refl)
      ]
      | inr e ↦ elim (Bool-cases (tag == "")) [
        | inl f ↦ rw (e, f) (rw a refl)
        | inr f ↦ rw (e, f) (rw (a, b) refl)
      ]
    ]

created-parts_of :
    (created tag : String)
    → get_or (lookup (add_parts (parts_of created tag) []) "created") "" ≡ created
unfolding lookup insert
created-parts_of created tag =
    let a = add_part-key "created" created [] refl refl in
    let b = add_part-key "connection" tag [] refl refl in
    let c = add_part-key "connection" tag (("created", created) ∷ []) refl refl in
    elim (Bool-cases (created == "")) [
      | inl e ↦ elim (Bool-cases (tag == "")) [
        | inl f ↦ rw (e, f) (sym ((eq_iff created "").0 e))
        | inr f ↦ rw (e, f) (rw b (sym ((eq_iff created "").0 e)))
      ]
      | inr e ↦ elim (Bool-cases (tag == "")) [
        | inl f ↦ rw (e, f) (rw a refl)
        | inr f ↦ rw (e, f) (rw a (rw c refl))
      ]
    ]

email_metadata-joined :
    (name : String) (parts : List String)
    → plain name ≡ true
    → all plain parts ≡ true
    → email_metadata (joined name parts) ≡ (name, add_parts parts [])
unfolding email_metadata
email_metadata-joined name parts h k = rw (split_at-joined name parts h k, email_metadata) refl

-- `split_email` reads the name and the time of creation off the email that `email_for_client` makes
-- of them and of a connection, each empty or not, if none of the three contains a bar.
pub split_email-email_for_client :
    (name created tag : String)
    → has_char is_bar name ≡ false
    → has_char is_bar created ≡ false
    → has_char is_bar tag ≡ false
    → split_email (email_for_client name created tag) ≡ (name, created)
unfolding split_email email_for_client
split_email-email_for_client name created tag h k l =
    let parts = parts_of created tag in
    let plain_parts = parts_of-plain created tag (ground arith) (ground arith) in
    rw (email_metadata-joined name parts (ground arith) plain_parts)
      (ap (λ x. (name, x)) (created-parts_of created tag))
