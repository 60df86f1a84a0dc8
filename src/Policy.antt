-- ===== src/Policy.antt =====
-- policy/Policy.h, policy/Policy.cpp and policy/Request.h.
pub mod Validate
use policy_driven_rate_limit.Prelude.{
  Bool, Bytes, List, [], codes, equal, false, if◌then◌else◌, not, pos, reverse, true, ℕ, ℤ, ◌&&◌,
  ◌++◌, ◌==◌, ◌||◌, ◌∷◌,
}
use policy_driven_rate_limit.Double.{Doubles}

-- `receivedAt` is in milliseconds since the epoch, as `toEpochMs` gives it.
pub record Request : Type 0 where
  pub tenant_id : Bytes
  pub endpoint : Bytes
  pub received_at : ℕ

-- The map of parameters is in the order of its keys.
pub record Policy (D : Type 0) : Type 0 where
  pub priority : ℤ
  pub has_tenant : Bool
  pub match_tenant : Bytes
  pub has_endpoint : Bool
  pub match_endpoint : Bytes
  pub algorithm : Bytes
  pub params : List (Bytes × D)
  pub order : ℕ

-- `Policy()`.
abbrev pub default_policy : {D : Type 0} → Policy D
default_policy = record {
  priority = pos 0;
  has_tenant = false;
  match_tenant = [];
  has_endpoint = false;
  match_endpoint = [];
  algorithm = [];
  params = [];
  order = 0;
}

unfoldable pub matches : {D : Type 0} → Policy D → Request → Bool
matches p req =
    if p.has_tenant && not (equal p.match_tenant req.tenant_id)
    then false
    else if p.has_endpoint && not (equal p.match_endpoint req.endpoint)
    then false
    else true

unfoldable pub normalize_algorithm_name : Bytes → Bytes
normalize_algorithm_name algorithm =
    if equal algorithm (codes "FixedWindow")
    then codes "FixedWindowCounter"
    else if equal algorithm (codes "SlidingWindow")
    then codes "SlidingWindowCounter"
    else if equal algorithm (codes "SlidingLog")
    then codes "SlidingWindowLog"
    else algorithm

-- `out.find(c) != npos`.
abbrev pub contains : ℕ → Bytes → Bool
contains c [] = false
contains c (x ∷ xs) = x == c || contains c xs

-- `while (!out.empty() && out.back() == '0') out.pop_back();`, on the text read backwards.
drop_zeros : Bytes → Bytes
drop_zeros [] = []
drop_zeros (c ∷ cs) = if c == b'0' then drop_zeros cs else c ∷ cs

drop_point : Bytes → Bytes
drop_point [] = []
drop_point (c ∷ cs) = if c == b'.' then cs else c ∷ cs

or_zero : Bytes → Bytes
or_zero [] = codes "0"
or_zero (c ∷ cs) = c ∷ cs

unfoldable pub format_double : {D : Type 0} ⦃d : Doubles D⦄ → D → Bytes
unfolding drop_zeros drop_point or_zero
format_double ⦃d⦄ value =
    let out = d.show_precise value in
    or_zero (if contains b'.' out then reverse (drop_point (drop_zeros (reverse out))) else out)

-- The entries behind the first, each behind a bar.
params_tail : {D : Type 0} ⦃d : Doubles D⦄ → List (Bytes × D) → Bytes
params_tail [] = []
params_tail ((name, value) ∷ rest) =
    b'|' ∷ (name ++ (b'=' ∷ (format_double value ++ params_tail rest)))

unfoldable pub params_string : {D : Type 0} ⦃d : Doubles D⦄ → List (Bytes × D) → Bytes
unfolding params_tail format_double
params_string [] = []
params_string ((name, value) ∷ rest) = name ++ (b'=' ∷ (format_double value ++ params_tail rest))
