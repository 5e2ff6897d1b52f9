-- ===== src/LoserTree/Children.antt =====
-- The two children of a node, and an array after two writes.
use mosito.Base.{
  ℕ, ◌+◌, ◌*◌, ◌/◌, ◌≤◌, ◌<◌, ◌≡◌, ◌≢◌, sym, ◌∙◌, arith, List, get_or, set, length, get_or-set_self,
  get_or-set_ne, length-set,
}
use mosito.LoserTree.Above.{Above, Above_left, Above_right, apart}

-- `u` and `other` are the children of `v`.
pub record Children (v u other : ℕ) : Type 0 where
  pub half : u / 2 ≡ v
  pub inner : 0 < v
  pub after : v < u
  pub other_after : v < other
  pub above : (x : ℕ) → Above u x → Above v x
  pub other_above : (x : ℕ) → Above other x → Above v x
  pub none_both : (x : ℕ) → Above u x → Above other x → ⊥

pub left-Children : (v : ℕ) → 0 < v → Children v (2 * v) (2 * v + 1)
left-Children v h = record {
  half = omega arith;
  inner = h;
  after = omega (arith, h);
  other_after = omega (arith, h);
  above = λ x a. Above_left v x h a;
  other_above = λ x a. Above_right v x a;
  none_both = λ x a b. apart (2 * v) x (omega (arith, h)) a b;
}

pub right-Children : (v : ℕ) → 0 < v → Children v (2 * v + 1) (2 * v)
right-Children v h = record {
  half = omega arith;
  inner = h;
  after = omega (arith, h);
  other_after = omega (arith, h);
  above = λ x a. Above_right v x a;
  other_above = λ x a. Above_left v x h a;
  none_both = λ x a b. apart (2 * v) x (omega (arith, h)) b a;
}

pub bigger : (v t i : ℕ) → v < t → t ≤ i → (i ≢ 0) × (i ≢ v)
bigger v t i h k = ((λ e. omega (arith, h, k, e)), (λ e. omega (arith, h, k, e)))

-- What is read after two writes.
pub write_first :
    (b : List ℕ) (p q y z : ℕ) → p ≢ q → p < length b → get_or (set (set b p y) q z) p 0 ≡ y
write_first b p q y z n h =
    get_or-set_ne (set b p y) q p z 0 (λ e. n (sym e)) ∙ get_or-set_self b p y 0 h

pub write_second : (b : List ℕ) (p q y z : ℕ) → q < length b → get_or (set (set b p y) q z) q 0 ≡ z
write_second b p q y z h = get_or-set_self (set b p y) q z 0 (omega (arith, length-set b p y, h))

pub write_other :
    (b : List ℕ) (p q y z x : ℕ) → p ≢ x → q ≢ x → get_or (set (set b p y) q z) x 0 ≡ get_or b x 0
write_other b p q y z x n m = get_or-set_ne (set b p y) q x z 0 m ∙ get_or-set_ne b p x y 0 n

pub write-length : (b : List ℕ) (p q y z : ℕ) → length (set (set b p y) q z) ≡ length b
write-length b p q y z = length-set (set b p y) q z ∙ length-set b p y
