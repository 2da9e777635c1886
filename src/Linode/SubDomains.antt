-- ===== src/Linode/SubDomains.antt =====
-- How `SubDomain` of services/linode/src/lib.rs is compared with a text.
use emporium.Prelude.{
  ◌≡◌, refl, sym, ◌∙◌, inl, inr, String, false, ◌==◌, ==_iff, string_eq, Bool-cases,
}
use mathlib.Core.Bool.{true≢false}
use emporium.Linode.Types.{
  SubDomain, named, root, wildcard, as_str, sub_domain_eq, sub_domain_from, sub_domain_is,
}

==-swap : (s t : String) → (t == s) ≡ false → (s == t) ≡ false
==-swap s t h = elim (Bool-cases (s == t)) [
  | inl e ↦ absurd (true≢false (sym ((==_iff t s).1 (sym ((==_iff s t).0 e))) ∙ h))
  | inr e ↦ e
]

-- A subdomain is equal to a text exactly when it is equal to the subdomain made of the text.
pub sub_domain_is-sub_domain_from :
    (s : SubDomain) (t : String) → sub_domain_is s t ≡ sub_domain_eq s (sub_domain_from t)
unfolding sub_domain_is sub_domain_from sub_domain_eq as_str
sub_domain_is-sub_domain_from s t = elim (Bool-cases (t == "")) [
  | inl e ↦ rw e refl
  | inr e ↦ elim (Bool-cases (t == "@")) [
    | inl f ↦ rw (e, f) refl
    | inr f ↦ elim (Bool-cases (t == "*")) [
      | inl g ↦ rw (e, f, g) refl
      | inr g ↦ rw (e, f, g) (other s f g)
    ]
  ]
]
  where
    other :
        (s : SubDomain)
        → (t == "@") ≡ false
        → (t == "*") ≡ false
        → (as_str s == t) ≡ sub_domain_eq s (named t)
    other (named x) f g = refl
    other root f g = ==-swap "@" t f
    other wildcard f g = ==-swap "*" t g
