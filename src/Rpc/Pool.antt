-- ===== src/Rpc/Pool.antt =====
-- src/utils/recycling.h: objects that are taken from a pool and given back to it.
use libremo.Prelude.{Bool, true, false, List, [], ◌∷◌, Option, none, some, if◌then◌else◌}
use libremo.Error.{Result, ok, error, ◌>>=◌, throw_if, err_must_recycle, err_cannot_recycle}

-- An object with its base class: whether `m_pool` leads to the pool.
pub record Recyclable (A : Type 0) : Type 0 where
  pub object : A
  pub pooled : Bool

-- The objects from `m_first` on, along `m_next`.
abbrev pub Pool : Type 0 → Type 0
Pool A = List (Recyclable A)

-- RecyclingPool::add
unfoldable pub add : {A : Type 0} → Recyclable A → Pool A → Pool A
add x pool = record x { pooled = false } ∷ pool

-- RecyclingPool::take
unfoldable pub take_first : {A : Type 0} → Pool A → Option (Recyclable A) × Pool A
take_first [] = (none, [])
take_first (x ∷ rest) = (some (record x { pooled = true }), rest)

-- Recyclable::recycle
unfoldable pub recycle : {A : Type 0} → Recyclable A → Pool A → Result (Pool A)
unfolding add
recycle x pool = if x.pooled then ok (add x pool) else error err_cannot_recycle

-- Recyclable::~Recyclable
unfoldable pub destroy : {A : Type 0} → Recyclable A → Result (Unit {0})
destroy x = throw_if x.pooled err_must_recycle

-- RecyclingPool::~RecyclingPool
unfoldable pub destroy_pool : {A : Type 0} → Pool A → Result (Unit {0})
unfolding destroy
destroy_pool [] = ok tt
destroy_pool (x ∷ rest) = do _ ← destroy x; destroy_pool rest
