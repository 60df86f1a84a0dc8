-- ===== src/Loader/Valid.antt =====
-- Whatever text a file holds, the policies that are loaded from it.
use policy_driven_rate_limit.Prelude.{
  >>-eq-ok, All, All-append, Bool, Bool-cases, Bytes, List, Option, Result, [], codes, equal, false,
  if_either, inl, inr, none, not, ok, refl, rejected, some, subst, suc, true, ℕ, ℤ, ◌++◌, ◌==◌,
  ◌>>=◌, ◌>>◌, ◌∷◌, ◌≡◌,
}
use policy_driven_rate_limit.Double.{Doubles}
use policy_driven_rate_limit.Policy.{Policy}
use policy_driven_rate_limit.Policy.Validate.{validate_policy_configuration}
use policy_driven_rate_limit.Resolver.{set_policies, create}
use policy_driven_rate_limit.Resolver.Order.{IsSorted, All-sorted, sorted_policies-IsSorted}
use policy_driven_rate_limit.Database.Rows.{split_lines}
use policy_driven_rate_limit.Loader.{
  LoadState, initial, begin_policy, located, in_file, or_reject, apply_root_field, flush,
  first_field, apply_field, later_field, load_trimmed, load_line, load_lines, load_from_file,
  check_policies, to_yaml, write_policies, save_to_file,
}
use policy_driven_rate_limit.Loader.Lines.{trim, leading_spaces, remove_comment, split_key_value}

-- A property of the value of a result that is no error.
abbrev Holds {ℓ κ} : {A : Type ℓ} → (A → Type κ) → Result A → Type κ
Holds P (rejected message) = Unit
Holds P (ok x) = P x

Holds-bind {ℓ κ} :
    {A B : Type ℓ} (Q : A → Type κ) (P : B → Type κ) (r : Result A) (f : A → Result B)
    → Holds Q r
    → ((x : A) → Q x → Holds P (f x))
    → Holds P (r >>= f)
Holds-bind Q P (rejected message) f h k = tt
Holds-bind Q P (ok x) f h k = k x h

Holds-eq {ℓ κ} : {A : Type ℓ} (P : A → Type κ) (r : Result A) {x : A} → Holds P r → r ≡ ok x → P x
Holds-eq P r h e = subst (Holds P) e h

module _ {D : Type 0} ⦃d : Doubles D⦄ where
  -- Every policy passes validation.
  abbrev pub AllValid : List (Policy D) → Type 0
  AllValid = All (λ p. validate_policy_configuration p ≡ ok tt)

  abbrev KeepsValid : LoadState D → Type 0
  KeepsValid st = AllValid st.policies

  -- The policies of a loaded file.
  abbrev IsLoaded : List (Policy D) → Type 0
  IsLoaded ps = AllValid ps × IsSorted ps

  module _ (strtol : Bytes → Option (ℤ × Bytes)) (path : Bytes) where
    flush_checked :
        (st : LoadState D) (r : Result (Unit {0}))
        → validate_policy_configuration st.current ≡ r
        → KeepsValid st
        → Holds KeepsValid
            (in_file path r >> ok (record st { policies = st.policies ++ (st.current ∷ []) }))
    flush_checked st (rejected message) e v = tt
    flush_checked st (ok _) e v = All-append _ st.policies (st.current ∷ []) v (e, tt)

    flush-Valid : (st : LoadState D) → KeepsValid st → Holds KeepsValid (flush strtol path st)
    unfolding flush
    flush-Valid st v =
        if_either (Holds KeepsValid) st.in_policy _ _
          (λ e. flush_checked st (validate_policy_configuration st.current) refl v) (λ e. v)

    -- Both uses of a key and its value leave the policies read so far.
    with_field :
        (r : Result (Bytes × Bytes)) (f : Bytes × Bytes → Result (LoadState D))
        → ((kv : Bytes × Bytes) → Holds KeepsValid (f kv))
        → Holds KeepsValid (r >>= f)
    with_field (rejected message) f h = tt
    with_field (ok kv) f h = h kv

    set_current :
        (st : LoadState D) (in_match : Bool) (r : Result (Policy D))
        → KeepsValid st
        → Holds KeepsValid
            (r >>= λ current. ok (record st { current = current; in_match = in_match }))
    set_current st in_match (rejected message) v = tt
    set_current st in_match (ok current) v = v

    apply_field-Valid :
        (n : ℕ) (st : LoadState D) (indent : ℕ) (key value : Bytes)
        → KeepsValid st
        → Holds KeepsValid (apply_field strtol path n st indent key value)
    unfolding apply_field
    apply_field-Valid n st indent key value v = set_current st _ _ v

    first_field-Valid :
        (n : ℕ) (st : LoadState D) (text : Bytes)
        → KeepsValid st
        → Holds KeepsValid (first_field strtol path n st text)
    unfolding first_field
    first_field-Valid n st [] v = v
    first_field-Valid n st (c ∷ cs) v =
        with_field
          (located path n
            (or_reject (split_key_value (c ∷ cs)) (codes "expected key: value after '-'")))
          (λ kv. located path n (apply_root_field strtol st.current kv.0 kv.1) >>= λ current.
            ok (record st { current = current }))
          (λ kv.
            set_current st st.in_match
              (located path n (apply_root_field strtol st.current kv.0 kv.1)) v)

    later_field-Valid :
        (n : ℕ) (st : LoadState D) (indent : ℕ) (text : Bytes)
        → KeepsValid st
        → Holds KeepsValid (later_field strtol path n st indent text)
    unfolding later_field
    later_field-Valid n st indent text v =
        if_either (Holds KeepsValid) (not st.in_policy) _ _ (λ e. tt)
          (λ e.
            if_either (Holds KeepsValid) (equal text (codes "match:")) _ _ (λ e. v)
              (λ e.
                with_field
                  (located path n (or_reject (split_key_value text) (codes "expected key: value")))
                  (λ kv. apply_field strtol path n st indent kv.0 kv.1)
                  (λ kv. apply_field-Valid n st indent kv.0 kv.1 v)))

    load_trimmed-Valid :
        (n : ℕ) (st : LoadState D) (indent : ℕ) (text : Bytes)
        → KeepsValid st
        → Holds KeepsValid (load_trimmed strtol path n st indent text)
    unfolding load_trimmed
    load_trimmed-Valid n st indent [] v = v
    load_trimmed-Valid n st indent (c ∷ cs) v = elim (Bool-cases (c == b'-')) [
      | inl starts ↦ rw starts (
          Holds-bind KeepsValid KeepsValid (flush strtol path st)
            (λ x. first_field strtol path n (begin_policy strtol path x) (trim cs))
            (flush-Valid st v)
            (λ x h. first_field-Valid n (begin_policy strtol path x) (trim cs) h))
      | inr goes_on ↦ rw goes_on (later_field-Valid n st indent (c ∷ cs) v)
    ]

    load_lines-Valid :
        (n : ℕ) (st : LoadState D) (lines : List Bytes)
        → KeepsValid st
        → Holds KeepsValid (load_lines strtol path n st lines)
    unfolding load_lines load_line
    load_lines-Valid n st [] v = v
    load_lines-Valid n st (line ∷ lines) v =
        Holds-bind KeepsValid KeepsValid (load_line strtol path (suc n) st line)
          (λ x. load_lines strtol path (suc n) x lines)
          (load_trimmed-Valid (suc n) st (leading_spaces (remove_comment line))
            (trim (remove_comment line)) v)
          (λ x h. load_lines-Valid (suc n) x lines h)

    create-IsLoaded : (ps : List (Policy D)) → AllValid ps → IsLoaded (create ps).policies
    unfolding create set_policies
    create-IsLoaded ps h = (All-sorted _ ps h, sorted_policies-IsSorted ps)

    -- What follows the opening of the file.
    abbrev read_policies : Bytes → Result (List (Policy D))
    read_policies text = load_lines strtol path 0 initial (split_lines text) >>= λ x.
        flush strtol path x >>= λ y. ok (create y.policies).policies

    read_policies-Valid :
        (text : Bytes) (ps : List (Policy D)) → read_policies text ≡ ok ps → IsLoaded ps
    read_policies-Valid text ps = Holds-eq IsLoaded (read_policies text) (
        Holds-bind KeepsValid IsLoaded (load_lines strtol path 0 initial (split_lines text))
          (λ x. flush strtol path x >>= λ y. ok (create y.policies).policies)
          (load_lines-Valid 0 initial (split_lines text) tt)
          (λ x h.
            Holds-bind KeepsValid IsLoaded (flush strtol path x)
              (λ y. ok (create y.policies).policies) (flush-Valid x h)
              (λ y k. create-IsLoaded y.policies k)))

    -- Whatever strtol and whatever text: if a policy file loads, every policy that it gives passes
    -- validation, and they are in descending order of priority.
    pub load_from_file-AllValid :
        (text : Option Bytes) (ps : List (Policy D))
        → load_from_file strtol path text ≡ ok ps
        → AllValid ps × IsSorted ps
    unfolding load_from_file
    load_from_file-AllValid none ps e = cc
    load_from_file-AllValid (some text) ps e = read_policies-Valid text ps e

  check_policies-AllValid : (ps : List (Policy D)) → check_policies ps ≡ ok tt → AllValid ps
  unfolding check_policies
  check_policies-AllValid [] e = tt
  check_policies-AllValid (p ∷ ps) e =
      let (first, rest) = >>-eq-ok (validate_policy_configuration p) (check_policies ps) e in
      (first, check_policies-AllValid ps rest)

  write-rejected :
      (r : Result (Unit {0})) (path file : Bytes) (ps : List (Policy D))
      (opened finished replaced : Bool) (message : Bytes)
      → (write_policies r path file ps opened finished replaced).1 ≡ rejected message
      → (write_policies r path file ps opened finished replaced).0 ≡ file
  unfolding write_policies
  write-rejected (rejected _) path file ps opened finished replaced message e = refl
  write-rejected (ok _) path file ps true true true message e = cc
  write-rejected (ok _) path file ps true true false message e = refl
  write-rejected (ok _) path file ps true false replaced message e = refl
  write-rejected (ok _) path file ps false finished replaced message e = refl

  write-ok :
      (r : Result (Unit {0})) (path file : Bytes) (ps : List (Policy D))
      (opened finished replaced : Bool)
      → (write_policies r path file ps opened finished replaced).1 ≡ ok tt
      → ((write_policies r path file ps opened finished replaced).0 ≡ to_yaml ps) × (r ≡ ok tt)
  unfolding write_policies
  write-ok (rejected _) path file ps opened finished replaced e = cc
  write-ok (ok _) path file ps true true true e = (refl, refl)
  write-ok (ok _) path file ps true true false e = cc
  write-ok (ok _) path file ps true false replaced e = cc
  write-ok (ok _) path file ps false finished replaced e = cc

  -- If saving policies fails, at whatever step, the file is what it was.
  pub save_to_file-rejected :
      (path file : Bytes) (ps : List (Policy D)) (opened finished replaced : Bool) (message : Bytes)
      → (save_to_file path file ps opened finished replaced).1 ≡ rejected message
      → (save_to_file path file ps opened finished replaced).0 ≡ file
  unfolding save_to_file
  save_to_file-rejected path file ps opened finished replaced message e =
      write-rejected (check_policies ps) path file ps opened finished replaced message e

  -- If saving policies succeeds, the file holds what to_yaml writes of them, and every one of them
  -- passes validation.
  pub save_to_file-ok :
      (path file : Bytes) (ps : List (Policy D)) (opened finished replaced : Bool)
      → (save_to_file path file ps opened finished replaced).1 ≡ ok tt
      → ((save_to_file path file ps opened finished replaced).0 ≡ to_yaml ps) × AllValid ps
  unfolding save_to_file
  save_to_file-ok path file ps opened finished replaced e =
      let (file_is, passed) =
        write-ok (check_policies ps) path file ps opened finished replaced e in
      (file_is, check_policies-AllValid ps passed)
