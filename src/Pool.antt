-- ===== src/Pool.antt =====
-- ObjectPool (src/Tool/ObjectPool.cpp) and FrameMgr (src/Tool/FrameMgr.cpp), the keeper of messages
-- by frame that uses it, over the messages on the heap (Message of src/Tool/Message.cpp). A message is
-- the number of its allocation; `undefined` is whether something was deleted twice or used after it.
pub mod Sharing
pub mod Dangling
pub mod Frames
pub mod Events
mod Examples
use ancestral_property_serve.Prelude.{
  ℕ, zero, suc, ◌+◌, ◌-◌, Bool, true, false, not, ◌||◌, Option, none, some, List, [], ◌∷◌, ◌++◌,
  Map, lookup, insert, erase, contains, at, touch, ltb, ◌==◌, if◌then◌else◌, ◌≡◌,
}

-- The pointer to a head or to a body: null, to an object, or to one that was deleted.
pub data Part : Type 0 where
  null live freed : Part

abbrev pub is_freed : Part → Bool
is_freed Part.freed = true
is_freed _ = false

-- What a deletion leaves of the pointer.
abbrev pub deleted : Part → Part
deleted Part.null = Part.null
deleted _ = Part.freed

pub record Message : Type 0 where
  pub head : Part
  pub body : Part

pub record ObjectPool : Type 0 where
  pub pool : List ℕ
  pub size : ℕ
  pub heap : Map Message
  pub next : ℕ
  pub undefined : Bool

-- INIT_SIZE and SAFETY_SIZE
abbrev pub init_size : ℕ
init_size = 131072

abbrev pub safety_size : ℕ
safety_size = 262144

-- `new Message()`
abbrev pub allocate : ObjectPool → ℕ × ObjectPool
allocate p = (
  p.next,
  record p {
    heap = insert p.next (record { head = Part.null; body = Part.null }) p.heap;
    next = suc p.next;
  },
)

-- `delete msg`, with the destructor of Message.
unfoldable pub delete_message : ℕ → ObjectPool → ObjectPool
delete_message msg p = elim (lookup msg p.heap) [
  | none ↦ record p { undefined = true }
  | some m ↦ record p {
    heap = erase msg p.heap;
    undefined = p.undefined || is_freed m.head || is_freed m.body;
  }
]

-- The loop of the constructor.
unfoldable pub fill : ℕ → ObjectPool → ObjectPool
fill zero p = p
fill (suc n) p = let (msg, q) = allocate p in fill n (record q { pool = q.pool ++ msg ∷ [] })

abbrev pub new_pool_of : ℕ → ObjectPool
new_pool_of n = fill n (record { pool = []; size = n; heap = []; next = 0; undefined = false })

abbrev pub new_pool : ObjectPool
new_pool = new_pool_of init_size

-- Get; the front of an empty queue is `none`.
unfoldable pub get : ObjectPool → Option (ℕ × ObjectPool)
get p =
    if ltb 0 p.size
    then elim p.pool [
      | [] ↦ none
      | msg ∷ rest ↦ some (msg, record p { size = p.size - 1; pool = rest })
    ]
    else some (allocate p)

-- Return
unfoldable pub return_message : ℕ → ObjectPool → ObjectPool
return_message msg p =
    if ltb p.size safety_size
    then elim (lookup msg p.heap) [
      | none ↦ record p { undefined = true; size = p.size + 1; pool = p.pool ++ msg ∷ [] }
      | some m ↦ record p {
        heap = insert msg (record { head = deleted m.head; body = deleted m.body }) p.heap;
        undefined = p.undefined || is_freed m.head || is_freed m.body;
        size = p.size + 1;
        pool = p.pool ++ msg ∷ [];
      }
    ]
    else delete_message msg p

-- The destructor.
unfoldable pub delete_all : List ℕ → ObjectPool → ObjectPool
delete_all [] p = p
delete_all (msg ∷ rest) p = delete_all rest (delete_message msg (record p { pool = rest }))

abbrev pub destroy : ObjectPool → ObjectPool
destroy p = record (delete_all p.pool p) { size = 0 }

-- What the owner of a message does to it: the pointers are set to new objects.
unfoldable pub set_parts : ℕ → ObjectPool → ObjectPool
set_parts msg p = elim (lookup msg p.heap) [
  | none ↦ record p { undefined = true }
  | some m ↦ record p { heap = insert msg (record { head = Part.live; body = Part.live }) p.heap }
]

pub record FrameMgr : Type 0 where
  pub frame : Map (List ℕ)
  pub pool : ObjectPool
  pub tot_count : ℕ

abbrev pub new_frame_mgr : FrameMgr
new_frame_mgr = record { frame = []; pool = new_pool; tot_count = 0 }

unfoldable pub add_frame : ℕ → ℕ → FrameMgr → FrameMgr
add_frame frame_count msg f = record f {
  frame = insert frame_count (at frame_count [] f.frame ++ msg ∷ []) f.frame;
}

unfoldable pub return_all : List ℕ → ObjectPool → ObjectPool
return_all [] p = p
return_all (msg ∷ rest) p = return_all rest (return_message msg p)

unfoldable pub del_frame : ℕ → FrameMgr → FrameMgr
del_frame frame_count f = elim (lookup frame_count f.frame) [
  | none ↦ f
  | some msgs ↦ record f { pool = return_all msgs f.pool; frame = erase frame_count f.frame }
]

unfoldable pub get_frame : ℕ → FrameMgr → List ℕ
get_frame frame_count f = elim (lookup frame_count f.frame) [ none ↦ [] | some msgs ↦ msgs ]

abbrev pub get_frame_count : FrameMgr → ℕ
get_frame_count f = f.tot_count

-- The destructor, which leaves the pool behind.
unfoldable pub return_frames : Map (List ℕ) → ObjectPool → ObjectPool
return_frames [] p = p
return_frames ((n, msgs) ∷ rest) p = return_frames rest (return_all msgs p)

abbrev pub destroy_frames : FrameMgr → FrameMgr
destroy_frames f = record f { pool = return_frames f.frame f.pool; frame = [] }
