-- ===== src/Dns/Magic/Known.antt =====
-- Which address the resolver of the daemon has for a name (pymesh/networking/dns.py).
use pymesh.Base.{
  ◌≡◌, ◌≢◌, refl, ◌∙◌, sym, none, some, List, [], ◌∷◌, arith, Option-cases, inl, inr, text_eq,
}
use pymesh.Base.Text.{Text, lower, join}
use pymesh.Base.Dict.{Dict, lookup}
use pymesh.Dns.{domain_of}
use pymesh.Dns.Magic.{get_address, find_address}

-- The name of the labels has the address: an address of the whole name that is not empty, or, where
-- the whole name has none, such an address of its first label.
pub data IsKnown (records : Dict Text) (labels : List Text) (ip : Text) : Type 0 where
  by_name : lookup (domain_of labels) records ≡ some ip → ip ≢ [] → IsKnown records labels ip
  by_label :
      (label : Text) (rest : List Text)
      → labels ≡ label ∷ rest
      → ((s : Text) → lookup (domain_of labels) records ≡ some s → s ≡ [])
      → lookup label records ≡ some ip
      → ip ≢ []
      → IsKnown records labels ip

module _ (k : Text) (records : Dict Text) where
  get_address-some :
      (ip : Text) → lookup k records ≡ some ip → ip ≢ [] → get_address k records ≡ some ip
  get_address-some [] e h = absurd (h refl)
  get_address-some (c ∷ ip) e h = rw (e, get_address) refl

  get_address-none :
      ((s : Text) → lookup k records ≡ some s → s ≡ []) → get_address k records ≡ none
  get_address-none h = elim (Option-cases (lookup k records)) [
    | inl e ↦ rw (e, get_address) refl
    | inr (s, e) ↦ rw (e, get_address, h s e) refl
  ]

  get_address-found :
      (ip : Text) → get_address k records ≡ some ip → (lookup k records ≡ some ip) × (ip ≢ [])
  get_address-found ip h = elim (Option-cases (lookup k records)) [
    | inl e ↦ absurd (ground arith)
    | inr ([], e) ↦ absurd (ground arith)
    | inr (c ∷ s, e) ↦
        let same : some (c ∷ s) ≡ some ip = rw (e, get_address) at h in
        (e ∙ same, λ empty. ground arith)
  ]

  get_address-lost : get_address k records ≡ none → (s : Text) → lookup k records ≡ some s → s ≡ []
  get_address-lost h [] e = refl
  get_address-lost h (c ∷ s) e = absurd (ground arith)

module _ (records : Dict Text) where
  pub find_address-known :
      (labels : List Text) (ip : Text)
      → IsKnown records labels ip
      → find_address records labels ≡ some ip
  unfolding find_address
  find_address-known labels ip (by_name e h) =
      rw (find_address, get_address-some (domain_of labels) records ip e h) refl
  find_address-known labels ip (by_label label rest shape missing e h) =
      rw (find_address, get_address-none (domain_of labels) records missing)
        (rw shape (get_address-some label records ip e h))

  found-IsKnown :
      (labels : List Text) (ip : Text)
      → find_address records labels ≡ some ip
      → IsKnown records labels ip
  unfolding find_address lower join
  found-IsKnown labels ip h = elim (Option-cases (get_address (domain_of labels) records)) [
    | inr (s, e) ↦
        let same : some s ≡ some ip = rw (e, find_address) at h in
        let (got, full) = get_address-found (domain_of labels) records ip (e ∙ same) in
        by_name got full
    | inl e ↦ at labels e h
  ]
    where
      at :
          (labels : List Text)
          → get_address (domain_of labels) records ≡ none
          → find_address records labels ≡ some ip
          → IsKnown records labels ip
      at [] e h =
          let found : get_address [] records ≡ some ip = rw (e, find_address) at h in
          let both : none ≡ some ip = sym e ∙ found in cc
      at (label ∷ rest) e h =
          let (got, full) = get_address-found label records ip (rw (e, find_address) at h) in
          by_label label rest refl (get_address-lost _ records e) got full

  pub find_address-unknown :
      (labels : List Text)
      → ((ip : Text) → ¬ IsKnown records labels ip)
      → find_address records labels ≡ none
  find_address-unknown labels h = elim (Option-cases (find_address records labels)) [
    | inl e ↦ e
    | inr (ip, e) ↦ absurd (h ip (found-IsKnown labels ip e))
  ]
