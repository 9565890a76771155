-- ===== src/Terminal/Agreement.antt =====
-- The smallest viewport among the active ones (packages/virtual_terminal/src/lib.rs), described by what
-- the map of viewports has for each client.
use crabcity.Auth.Texts.{eq_text_other, eq_text_self}
use crabcity.Shared.{
  All, Bool, Bool-cases, List, Option, Text, [], any, ap, arith, eq_text, false, if◌then◌else◌, inl,
  inr, insert, lookup, lookup-insert, lookup-remove, map, min, none, refl, remove, some, subst, suc,
  sym, text_dec, true, ℕ, ◌&&◌, ◌==◌, ◌∙◌, ◌∷◌, ◌≡◌, ◌≢◌, ◌≤◌,
}
use crabcity.Terminal.Emulator.{Vt100}
use crabcity.Terminal.Viewport.{
  ClientViewport, Dims, Viewports, active_of, calculate_effective_dims, min_dims, min_of,
}
use crabcity.Terminal.Virtual.{activate}

min_of-le : (n : ℕ) (ms : List ℕ) → (min_of n ms ≤ n) × All (λ m. min_of n ms ≤ m) ms
unfolding min_of
min_of-le n [] = (omega arith, tt)
min_of-le n (m ∷ ms) =
    let (low, rest) = min_of-le (min n m) ms in (omega arith, (omega arith, rest))

min_of-mem : (n : ℕ) (ms : List ℕ) → any (λ m. m == min_of n ms) (n ∷ ms) ≡ true
unfolding min_of
min_of-mem n [] = ground arith
min_of-mem n (m ∷ ms) = ground (arith, min_of-mem (min n m) ms)

-- The smallest number of rows and of columns of the viewports: below all, and each reached.
record IsSmallest (vs : List ClientViewport) (d : Dims) : Type 0 where
  pub rows_le : All (λ n. d.0 ≤ n) (map (λ w. w.rows) vs)
  pub cols_le : All (λ n. d.1 ≤ n) (map (λ w. w.cols) vs)
  pub rows_reached : any (λ n. n == d.0) (map (λ w. w.rows) vs) ≡ true
  pub cols_reached : any (λ n. n == d.1) (map (λ w. w.cols) vs) ≡ true

abbrev Agrees : List ClientViewport → Option Dims → Type 0
Agrees vs none = vs ≡ []
Agrees vs (some d) = IsSmallest vs d

-- The clients agree on no dimensions exactly if none is active, and otherwise on the smallest
-- number of rows and of columns among the active ones.
calculate-Agrees :
    (viewports : Viewports) → Agrees (active_of viewports) (calculate_effective_dims viewports)
unfolding calculate_effective_dims
calculate-Agrees viewports = smallest (active_of viewports)
  where
    smallest : (vs : List ClientViewport) → Agrees vs (min_dims vs)
    smallest [] = refl
    smallest (w ∷ vs) = record {
      rows_le = min_of-le w.rows (map (λ u. u.rows) vs);
      cols_le = min_of-le w.cols (map (λ u. u.cols) vs);
      rows_reached = min_of-mem w.rows (map (λ u. u.rows) vs);
      cols_reached = min_of-mem w.cols (map (λ u. u.cols) vs);
    }

-- The smallest number of rows and of columns of the active viewports: no active one is smaller, and if
-- there is an active one, each of the two is that of an active one.
pub record IsAgreed (viewports : Viewports) (d : Dims) : Type 0 where
  pub below :
      (c : Text) (w : ClientViewport)
      → lookup c viewports ≡ some w
      → w.is_active ≡ true
      → (d.0 ≤ w.rows) × (d.1 ≤ w.cols)
  pub rows_by :
      (c : Text) (w : ClientViewport)
      → lookup c viewports ≡ some w
      → w.is_active ≡ true
      → (x : Text) × (u : ClientViewport) × (lookup x viewports ≡ some u)
        × (u.is_active ≡ true)
        × (u.rows ≡ d.0)
  pub cols_by :
      (c : Text) (w : ClientViewport)
      → lookup c viewports ≡ some w
      → w.is_active ≡ true
      → (x : Text) × (u : ClientViewport) × (lookup x viewports ≡ some u)
        × (u.is_active ≡ true)
        × (u.cols ≡ d.1)

-- No key stands twice in the list for a map.
abbrev pub KeysDiffer : Viewports → Type 0
KeysDiffer [] = Unit
KeysDiffer ((j, w) ∷ m) = (lookup j m ≡ none) × KeysDiffer m

pub insert-KeysDiffer :
    (k : Text) (w : ClientViewport) (m : Viewports) → KeysDiffer m → KeysDiffer (insert k w m)
unfolding insert lookup
insert-KeysDiffer k w [] h = (refl, tt)
insert-KeysDiffer k w ((j, u) ∷ m) h = elim (text_dec j k) [
  | yes same ↦
      rw (ap (λ x. eq_text x k) same ∙ eq_text_self k) (ap (λ x. lookup x m) (sym same) ∙ h.0, h.1)
  | no other ↦
      rw (eq_text_other j k other)
        (ground (arith, h.0, lookup-insert k j w m), insert-KeysDiffer k w m h.1)
]

pub remove-KeysDiffer : (k : Text) (m : Viewports) → KeysDiffer m → KeysDiffer (remove k m)
unfolding remove
remove-KeysDiffer k [] h = tt
remove-KeysDiffer k ((j, u) ∷ m) h = elim (Bool-cases (eq_text j k)) [
  | inl same ↦ rw same (remove-KeysDiffer k m h.1)
  | inr other ↦ rw other (ground (arith, h.0, lookup-remove k j m), remove-KeysDiffer k m h.1)
]

pub activate-KeysDiffer :
    (v : Vt100) (k : Text) (active : Bool) (m : Viewports)
    → KeysDiffer m
    → KeysDiffer (activate v k active m)
unfolding activate
activate-KeysDiffer v k active m h =
    elim (lookup k m)
      as (λ o.
        KeysDiffer (elim o [ none ↦ m | some w ↦ insert k (record w { is_active = active }) m ])) [
          | none ↦ h
          | some w ↦ insert-KeysDiffer k (record w { is_active = active }) m h
        ]

All-active :
    (f : ClientViewport → ℕ) (n : ℕ) (m : Viewports) (c : Text) (w : ClientViewport)
    → All (λ x. n ≤ x) (map f (active_of m))
    → lookup c m ≡ some w
    → w.is_active ≡ true
    → n ≤ f w
unfolding lookup
All-active f n [] c w low found on = absurd (cc)
All-active f n ((j, u) ∷ m) c w low found on = elim (Bool-cases (eq_text j c)) [
  | inl same ↦
      let is_it : u ≡ w = ground (arith, found, same) in
      let lit : u.is_active ≡ true = ap (λ (x : ClientViewport). x.is_active) is_it ∙ on in
      let first : n ≤ f u =
        (subst (λ b. All (λ x. n ≤ x) (map f (if b then u ∷ active_of m else active_of m))) lit
          low).0 in
      subst (λ x. n ≤ f x) is_it first
  | inr other ↦
      let onward : All (λ x. n ≤ x) (map f (active_of m)) = rest u.is_active low in
      All-active f n m c w onward (ground (arith, found, other)) on
]
  where
    rest :
        (b : Bool)
        → All (λ x. n ≤ x) (map f (if b then u ∷ active_of m else active_of m))
        → All (λ x. n ≤ x) (map f (active_of m))
    rest true h = h.1
    rest false h = h

any-active :
    (f : ClientViewport → ℕ) (n : ℕ) (m : Viewports)
    → KeysDiffer m
    → any (λ x. x == n) (map f (active_of m)) ≡ true
    → (c : Text) × (w : ClientViewport) × (lookup c m ≡ some w) × (w.is_active ≡ true) × (f w ≡ n)
unfolding lookup
any-active f n [] differ h = absurd (cc)
any-active f n ((j, u) ∷ m) differ h = elim (Bool-cases (u.is_active && f u == n)) [
  | inl hit ↦ (j, u, rw (eq_text_self j) refl, ground (arith, hit), ground (arith, hit))
  | inr miss ↦
      let (c, w, found, on, same) = any-active f n m differ.1 (rest u.is_active h miss) in
      let apart : j ≢ c =
        λ e. let q = ap (λ x. lookup x m) e in ground (arith, q, differ.0, found) in
      (c, w, rw (eq_text_other j c apart) found, on, same)
]
  where
    rest :
        (b : Bool)
        → any (λ y. y == n) (map f (if b then u ∷ active_of m else active_of m)) ≡ true
        → (b && f u == n) ≡ false
        → any (λ y. y == n) (map f (active_of m)) ≡ true
    rest true hit miss = ground (arith, hit, miss)
    rest false hit miss = hit

-- What the code computes is what the active clients agree on.
pub calculate-IsAgreed :
    (m : Viewports) (d : Dims) → KeysDiffer m → calculate_effective_dims m ≡ some d → IsAgreed m d
calculate-IsAgreed m d differ e =
    let s : IsSmallest (active_of m) d = subst (Agrees (active_of m)) e (calculate-Agrees m) in
    record {
      below = λ c w found on. (
        All-active (λ x. x.rows) d.0 m c w s.rows_le found on,
        All-active (λ x. x.cols) d.1 m c w s.cols_le found on,
      );
      rows_by = λ c w found on. any-active (λ x. x.rows) d.0 m differ s.rows_reached;
      cols_by = λ c w found on. any-active (λ x. x.cols) d.1 m differ s.cols_reached;
    }

none_active :
    (m : Viewports) (c : Text) (w : ClientViewport)
    → active_of m ≡ []
    → lookup c m ≡ some w
    → w.is_active ≢ true
none_active m c w nobody found on =
    let low : All (λ x. suc w.rows ≤ x) (map (λ x. x.rows) (active_of m)) = rw nobody tt in
    let no : suc w.rows ≤ w.rows = All-active (λ x. x.rows) (suc w.rows) m c w low found on in
    omega (arith, no)

-- Without an active client, any dimensions will do.
pub calculate-nobody : (m : Viewports) (d : Dims) → calculate_effective_dims m ≡ none → IsAgreed m d
calculate-nobody m d e =
    let nobody : active_of m ≡ [] = subst (Agrees (active_of m)) e (calculate-Agrees m) in
    record {
      below = λ c w found on. absurd (none_active m c w nobody found on);
      rows_by = λ c w found on. absurd (none_active m c w nobody found on);
      cols_by = λ c w found on. absurd (none_active m c w nobody found on);
    }
