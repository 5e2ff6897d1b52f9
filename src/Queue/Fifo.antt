-- ===== src/Queue/Fifo.antt =====
-- A block queue is a bounded first-in-first-out queue of pages.
use mosito.Base.{
  ℕ, zero, suc, ◌+◌, ◌≤◌, ◌≡◌, refl, ap, sym, ◌∙◌, Bool, true, false, List, [], ◌∷◌, ◌++◌, length,
  take, map, Option, none, some, arith, All, All-append, length-append, length-take, if◌then◌else◌,
  ltb, le→ltb, lt→ltb, ◌<◌, replicate, length-replicate,
}
use mosito.Base.Bytes.{write_bytes, length-write_bytes}
use mosito.Buffer.{Block, Allocator, create, store_block}
use mosito.Buffer.Layout.{take_all}
use mosito.Queue.{BlockCircleQueue, block_size, create_queue, push, pop}

abbrev pub IsPage : Block → Type 0
IsPage b = length b.mem ≡ block_size

-- Every block is one page, and none is lost.
pub record IsValid (q : BlockCircleQueue) : Type 0 where
  pub total : length q.emptys + length q.blocks ≡ q.queue_capacity
  pub emptys_whole : All IsPage q.emptys
  pub blocks_whole : All IsPage q.blocks

-- The specification: at most `capacity` pages, oldest first.
abbrev pub offer : ℕ → List (List ℕ) → List ℕ → Bool × List (List ℕ)
offer capacity pages p =
    if ltb (length pages) capacity then (true, pages ++ p ∷ []) else (false, pages)

abbrev pub poll : List (List ℕ) → Option (List ℕ) × List (List ℕ)
poll [] = (none, [])
poll (p ∷ pages) = (some p, pages)

abbrev pub contents : BlockCircleQueue → List (List ℕ)
contents q = map (λ b. b.mem) q.blocks

write_whole : (mem bs : List ℕ) → length mem ≡ length bs → write_bytes mem 0 bs ≡ bs
unfolding write_bytes
write_whole [] [] h = refl
write_whole [] (b ∷ bs) h = absurd (omega arith)
write_whole (m ∷ mem) [] h = absurd (omega arith)
write_whole (m ∷ mem) (b ∷ bs) h = ap (◌∷◌ b) (write_whole mem bs (omega arith))

-- Copying a page over a page.
pub page_copy :
    (to : Block) (src : List ℕ) (n : ℕ)
    → length to.mem ≡ n
    → n ≤ length src
    → (store_block to src n).mem ≡ take n src
unfolding store_block
page_copy to src n h k = write_whole to.mem (take n src) (omega (arith, length-take n src))

pub copy_whole :
    (to : Block) (src : List ℕ) (n : ℕ)
    → length to.mem ≡ n
    → n ≤ length src
    → length (store_block to src n).mem ≡ n
unfolding store_block
copy_whole to src n h k = length-write_bytes to.mem 0 (take n src) ∙ h

length-map {ℓ κ} :
    {A : Type ℓ} {B : Type κ} (f : A → B) (xs : List A) → length (map f xs) ≡ length xs
length-map f [] = refl
length-map f (x ∷ xs) = ap suc (length-map f xs)

All-replicate {ℓ κ} : {A : Type ℓ} (P : A → Type κ) (n : ℕ) (a : A) → P a → All P (replicate n a)
All-replicate P zero a p = tt
All-replicate P (suc n) a p = (p, All-replicate P n a p)

-- A new queue is valid, whatever its capacity.
pub create_queue-IsValid :
    (a : Allocator) (junk capacity : ℕ) → IsValid (create_queue a junk capacity)
unfolding create_queue create
create_queue-IsValid a junk capacity = record {
  total = omega (arith, length-replicate capacity (create a block_size junk));
  emptys_whole =
      All-replicate IsPage capacity (create a block_size junk) (a.length-malloc block_size);
  blocks_whole = tt;
}

offer_full :
    (capacity : ℕ) (pages : List (List ℕ)) (p : List ℕ)
    → capacity ≤ length pages
    → offer capacity pages p ≡ (false, pages)
offer_full capacity pages p h = rw (le→ltb (length pages) capacity h) refl

offer_room :
    (capacity : ℕ) (pages : List (List ℕ)) (p : List ℕ)
    → length pages < capacity
    → offer capacity pages p ≡ (true, pages ++ p ∷ [])
offer_room capacity pages p h = rw (lt→ltb (length pages) capacity h) refl

contents-append :
    (bs : List Block) (b : Block)
    → map (λ b. b.mem) (bs ++ b ∷ []) ≡ map (λ b. b.mem) bs ++ b.mem ∷ []
contents-append [] b = refl
contents-append (x ∷ bs) b = ap (◌∷◌ x.mem) (contents-append bs b)

-- What a push leaves of a valid queue.
pub record Pushed (q : BlockCircleQueue) (node : Block) (r : Bool × BlockCircleQueue) : Type 0 where
  pub valid : IsValid r.1
  pub same_capacity : r.1.queue_capacity ≡ q.queue_capacity
  pub refines : (r.0, contents r.1) ≡ offer q.queue_capacity (contents q) (take block_size node.mem)

push_lem :
    (capacity : ℕ) (es bs : List Block) (node : Block)
    → IsValid (record { queue_capacity = capacity; emptys = es; blocks = bs })
    → block_size ≤ length node.mem
    → Pushed
        (record { queue_capacity = capacity; emptys = es; blocks = bs })
        node
        (push (record { queue_capacity = capacity; emptys = es; blocks = bs }) node)
unfolding push
push_lem capacity [] bs node v h = record {
  valid = v;
  same_capacity = refl;
  refines = sym (
      offer_full capacity (map (λ b. b.mem) bs) (take block_size node.mem)
        (omega (arith, v.total, length-map (λ (b : Block). b.mem) bs)));
}
push_lem capacity (e ∷ es) bs node v h = record {
  valid = record {
    total = omega (arith, v.total, length-append bs (store_block e node.mem block_size ∷ []));
    emptys_whole = v.emptys_whole.1;
    blocks_whole =
        All-append IsPage bs (store_block e node.mem block_size) v.blocks_whole
          (copy_whole e node.mem block_size v.emptys_whole.0 h);
  };
  same_capacity = refl;
  refines =
      ap (λ ps. (true, ps))
        (contents-append bs (store_block e node.mem block_size)
          ∙ ap (λ m. map (λ (b : Block). b.mem) bs ++ m ∷ [])
              (page_copy e node.mem block_size v.emptys_whole.0 h))
      ∙ sym (
          offer_room capacity (map (λ b. b.mem) bs) (take block_size node.mem)
            (omega (arith, v.total, length-map (λ (b : Block). b.mem) bs)));
}

-- What a pop into `block` leaves of a valid queue, and of `block`.
pub record Popped (q : BlockCircleQueue) (block : Block) (r : Bool × Block × BlockCircleQueue)
    : Type 0 where
  pub valid : IsValid r.2
  pub same_capacity : r.2.queue_capacity ≡ q.queue_capacity
  pub whole : IsPage r.1
  pub refines : ((if r.0 then some r.1.mem else none), contents r.2) ≡ poll (contents q)

pop_lem :
    (capacity : ℕ) (es bs : List Block) (block : Block)
    → IsValid (record { queue_capacity = capacity; emptys = es; blocks = bs })
    → IsPage block
    → Popped
        (record { queue_capacity = capacity; emptys = es; blocks = bs })
        block
        (pop (record { queue_capacity = capacity; emptys = es; blocks = bs }) block)
unfolding pop
pop_lem capacity es [] block v h = record {
  valid = v;
  same_capacity = refl;
  whole = h;
  refines = refl;
}
pop_lem capacity es (b ∷ bs) block v h = record {
  valid = record {
    total = omega (arith, v.total, length-append es (b ∷ []));
    emptys_whole = All-append IsPage es b v.emptys_whole v.blocks_whole.0;
    blocks_whole = v.blocks_whole.1;
  };
  same_capacity = refl;
  whole = copy_whole block b.mem block_size h (omega (arith, v.blocks_whole.0));
  refines =
      ap (λ m. (some m, map (λ (b : Block). b.mem) bs))
        (page_copy block b.mem block_size h (omega (arith, v.blocks_whole.0))
          ∙ take_page b.mem block_size v.blocks_whole.0);
}
  where
    take_page : (m : List ℕ) (n : ℕ) → length m ≡ n → take n m ≡ m
    take_page m n e = rw (← e) (take_all m)

pub push-Pushed :
    (q : BlockCircleQueue) (node : Block)
    → IsValid q
    → block_size ≤ length node.mem
    → Pushed q node (push q node)
push-Pushed q node v h = push_lem q.queue_capacity q.emptys q.blocks node v h

pub pop-Popped :
    (q : BlockCircleQueue) (block : Block) → IsValid q → IsPage block → Popped q block (pop q block)
pop-Popped q block v h = pop_lem q.queue_capacity q.emptys q.blocks block v h
