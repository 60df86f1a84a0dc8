-- ===== src/Database/Sorted.antt =====
-- The tenants by id.
use policy_driven_rate_limit.Prelude.{
  Bool-cases, Bytes, List, [], arith, before, false, inl, inr, refl, true, ◌∷◌, ◌≡◌,
}
use policy_driven_rate_limit.Database.Rows.{TenantRecord}
use policy_driven_rate_limit.Database.{Database, insert_tenant, sorted_tenants, load_all_tenants}
use mathlib.Core.List.{Perm}
use mathlib.Core.List.Perm

insert_tenant-perm :
    (t : TenantRecord) (ts : List TenantRecord) → Perm (insert_tenant t ts) (t ∷ ts)
unfolding insert_tenant
insert_tenant-perm t [] = Perm.refl (t ∷ [])
insert_tenant-perm t (u ∷ ts) = elim (Bool-cases (before u.id t.id)) [
  | inl later ↦ rw later (Perm.trans (Perm.cons u (insert_tenant-perm t ts)) (Perm.swap t u ts))
  | inr first ↦ rw first (Perm.refl (t ∷ u ∷ ts))
]

sorted_tenants-perm : (ts : List TenantRecord) → Perm (sorted_tenants ts) ts
unfolding sorted_tenants
sorted_tenants-perm [] = Perm.refl []
sorted_tenants-perm (t ∷ ts) =
    Perm.trans (insert_tenant-perm t (sorted_tenants ts)) (Perm.cons t (sorted_tenants-perm ts))

-- No id of the list comes before that of its head.
abbrev pub IsById : List TenantRecord → Type 0
IsById [] = Unit {0}
IsById (t ∷ []) = Unit {0}
IsById (t ∷ u ∷ ts) = (before u.id t.id ≡ false) × IsById (u ∷ ts)

before-asym : (s t : Bytes) → before s t ≡ true → before t s ≡ false
unfolding before
before-asym [] [] h = cc
before-asym [] (y ∷ t) h = refl
before-asym (x ∷ s) [] h = cc
before-asym (x ∷ s) (y ∷ t) h = ground (arith, before-asym s t)

insert_tenant-IsById :
    (t : TenantRecord) (ts : List TenantRecord) → IsById ts → IsById (insert_tenant t ts)
unfolding insert_tenant
insert_tenant-IsById t [] s = tt
insert_tenant-IsById t (u ∷ []) s = elim (Bool-cases (before u.id t.id)) [
  | inl later ↦ rw later (before-asym u.id t.id later, tt)
  | inr first ↦ rw first (first, tt)
]
insert_tenant-IsById t (u ∷ v ∷ ts) s = elim (Bool-cases (before u.id t.id)) [
  | inl later ↦
      let rest = insert_tenant-IsById t (v ∷ ts) s.1 in
      elim (Bool-cases (before v.id t.id)) [
        | inl still ↦ rw (later, still) (s.0, rw still at rest)
        | inr here ↦ rw (later, here) (before-asym u.id t.id later, (here, s.1))
      ]
  | inr first ↦ rw first (first, s)
]

sorted_tenants-IsById : (ts : List TenantRecord) → IsById (sorted_tenants ts)
unfolding sorted_tenants
sorted_tenants-IsById [] = tt
sorted_tenants-IsById (t ∷ ts) =
    insert_tenant-IsById t (sorted_tenants ts) (sorted_tenants-IsById ts)

-- While the store is available, all its tenants are given, each as often as it is there, and none
-- stands behind one that its id comes before.
load_all_tenants_lem :
    (db : Database)
    → db.available ≡ true
    → Perm (load_all_tenants db) db.tenants × IsById (load_all_tenants db)
unfolding load_all_tenants
load_all_tenants_lem db up =
    rw up (sorted_tenants-perm db.tenants, sorted_tenants-IsById db.tenants)
