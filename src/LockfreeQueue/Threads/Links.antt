-- ===== src/LockfreeQueue/Threads/Links.antt =====
-- lockfree/lockfree_queue.cc: where a node is named: by a link of the queue, by the push that is
-- about to link it, or as one that has been taken off.
use jowi_asio.Base.{ℕ, zero, suc, ◌≡◌, ◌≢◌, ◌⊎◌, refl, sym, arith}
use jowi_asio.Base.{true, List, [], ◌∷◌, ◌++◌, Option, none, some, ◌==◌, if◌then◌else◌, ltb}
use jowi_asio.Base.{get_elem?, set, length, sum_by}
use mathlib.Core.Path.{subst}
use mathlib.Core.Option.{some-injective}
use jowi_asio.LockfreeQueue.Threads.{
  Node, new_node, Shared, Position, idle, starting, linking, storing, counting, popping, reading,
  swapping, lowering, clearing, resetting,
}

abbrev pub names : ℕ → Option ℕ → ℕ
names x none = 0
names x (some y) = if y == x then 1 else 0

-- A link of a node that has been taken off does not count.
abbrev pub link_to : ℕ → Node → ℕ
link_to x c = if c.popped then 0 else names x c.next

abbrev pub links : ℕ → Shared → ℕ
links x m = sum_by (link_to x) m.nodes

abbrev pub is_popped : Option Node → ℕ
is_popped none = 0
is_popped (some c) = if c.popped then 1 else 0

abbrev pub off : ℕ → Shared → ℕ
off x m = is_popped (get_elem? m.nodes x)

-- Whether a thread is to link x, and whether it has taken x off and not returned it yet.
abbrev pub pending : ℕ → Position → ℕ
pending x (starting y) = names x (some y)
pending x (linking y t) = names x (some y)
pending x idle = 0
pending x (storing y) = 0
pending x (counting y) = 0
pending x popping = 0
pending x (reading h) = 0
pending x (swapping h n) = 0
pending x (lowering h) = 0
pending x (clearing h) = 0
pending x resetting = 0

abbrev pub carried : ℕ → Position → ℕ
carried x (lowering h) = names x (some h)
carried x (clearing h) = names x (some h)
carried x idle = 0
carried x (starting y) = 0
carried x (linking y t) = 0
carried x (storing y) = 0
carried x (counting y) = 0
carried x popping = 0
carried x (reading h) = 0
carried x (swapping h n) = 0
carried x resetting = 0

-- How often x may be named: `__head` never, a node once.
abbrev pub room_for : ℕ → Shared → ℕ
room_for x m = if x == 0 then 0 else if ltb x (length m.nodes) then 1 else 0

-- What a popping thread has read of a node that is still on the queue.
abbrev pub Knows : Option Node → Option ℕ → Type 0
Knows none n = ⊥
Knows (some c) n = (c.popped ≡ true) ⊎ ((n ≡ none) ⊎ (n ≡ c.next))

abbrev pub Good : Shared → Position → Type 0
Good m (reading h) = h ≢ 0
Good m (swapping h n) = (h ≢ 0) × Knows (get_elem? m.nodes h) n
Good m (lowering h) = (h ≢ 0) × (off h m ≡ 1)
Good m (clearing h) = (h ≢ 0) × (off h m ≡ 1)
Good m idle = Unit
Good m (starting y) = Unit
Good m (linking y t) = Unit
Good m (storing y) = Unit
Good m (counting y) = Unit
Good m popping = Unit
Good m resetting = Unit

-- Lists of nodes after a write and after an append.
pub get-set :
    (ns : List Node) (i j : ℕ) (c b : Node)
    → get_elem? ns i ≡ some c
    → get_elem? (set ns i b) j ≡ (if i == j then some b else get_elem? ns j)
get-set [] i j c b h = absurd (cc)
get-set (n ∷ ns) zero zero c b h = ground arith
get-set (n ∷ ns) zero (suc j) c b h = ground arith
get-set (n ∷ ns) (suc i) zero c b h = ground arith
get-set (n ∷ ns) (suc i) (suc j) c b h = ground (arith, get-set ns i j c b h)

pub off-append :
    (ns : List Node) (x : ℕ)
    → is_popped (get_elem? (ns ++ (new_node ∷ [])) x) ≡ is_popped (get_elem? ns x)
off-append [] zero = refl
off-append [] (suc x) = refl
off-append (n ∷ ns) zero = refl
off-append (n ∷ ns) (suc x) = off-append ns x

pub links-append :
    (ns : List Node) (x : ℕ) → sum_by (link_to x) (ns ++ (new_node ∷ [])) ≡ sum_by (link_to x) ns
links-append [] x = refl
links-append (n ∷ ns) x = omega (arith, links-append ns x)

pub get-append :
    (ns ms : List Node) (i : ℕ) (c : Node)
    → get_elem? ns i ≡ some c
    → get_elem? (ns ++ ms) i ≡ some c
get-append [] ms i c h = absurd (cc)
get-append (n ∷ ns) ms zero c h = h
get-append (n ∷ ns) ms (suc i) c h = get-append ns ms i c h

-- How a node but `__head` changes: its link does not, unless it had none or the node is off the
-- queue, and a node that is off stays off.
abbrev pub Evolves : Option Node → Option Node → Type 0
Evolves none o = Unit
Evolves (some c) none = ⊥
Evolves (some c) (some c') =
    (c.popped ≡ true → c'.popped ≡ true)
    × ((c'.popped ≡ true) ⊎ ((c.next ≡ none) ⊎ (c.next ≡ c'.next)))

pub Knows-Evolves : (o o' : Option Node) (n : Option ℕ) → Evolves o o' → Knows o n → Knows o' n
Knows-Evolves none o' n e k = elim k [ ]
Knows-Evolves (some c) none n e k = elim e [ ]
Knows-Evolves (some c) (some c') n e k = ground arith

pub popped-Evolves : (o o' : Option Node) → Evolves o o' → is_popped o ≡ 1 → is_popped o' ≡ 1
popped-Evolves none o' e k = absurd (omega arith)
popped-Evolves (some c) none e k = elim e [ ]
popped-Evolves (some c) (some c') e k = ground arith

pub Evolves-same : (o o' : Option Node) → o' ≡ o → Evolves o o'
Evolves-same none o' e = tt
Evolves-same (some c) none e = absurd (cc)
Evolves-same (some c) (some c') e = ground arith

pub Evolves-set :
    (ns : List Node) (i j : ℕ) (c b : Node)
    → get_elem? ns i ≡ some c
    → Evolves (some c) (some b)
    → Evolves (get_elem? ns j) (get_elem? (set ns i b) j)
Evolves-set [] i j c b h e = absurd (cc)
Evolves-set (n ∷ ns) zero zero c b h e =
    subst (λ (k : Node). Evolves (some k) (some b)) (sym (some-injective n c h)) e
Evolves-set (n ∷ ns) zero (suc j) c b h e = Evolves-same (get_elem? ns j) (get_elem? ns j) refl
Evolves-set (n ∷ ns) (suc i) zero c b h e = Evolves-same (some n) (some n) refl
Evolves-set (n ∷ ns) (suc i) (suc j) c b h e = Evolves-set ns i j c b h e

pub Evolves-append : (ns ms : List Node) (j : ℕ) → Evolves (get_elem? ns j) (get_elem? (ns ++ ms) j)
Evolves-append [] ms j = tt
Evolves-append (n ∷ ns) ms zero = Evolves-same (some n) (some n) refl
Evolves-append (n ∷ ns) ms (suc j) = Evolves-append ns ms j
