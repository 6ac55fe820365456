-- ===== src/Center/Groups.antt =====
-- The groups against MachineRecord (RegisterServer, RemoveServer, HandleServerInfo,
-- HandleServerConnChange and CloseClientSocket of src/Source/CenterServer.cpp).
use ancestral_property_serve.Prelude.{
  ℕ, suc, ◌+◌, ◌-◌, ◌≡◌, refl, Option, none, some, List, [], ◌∷◌, ◌++◌, lookup, lookup-insert,
  lookup-erase, length, ◌==◌, if◌then◌else◌, arith,
}
use ancestral_property_serve.Enums.{ServerType, server_type_code}
use ancestral_property_serve.Center.{
  Center, ServerInfo, machine, set_machine, register_server, remove_server,
  remove_server_from_group, close_client_socket,
}

unfoldable pub count : ℕ → List ℕ → ℕ
count fd [] = 0
count fd (p ∷ group) = let rest = count fd group in if p == fd then suc rest else rest

-- The type under which a socket is registered.
unfoldable pub type_of : Center → ℕ → Option ServerType
type_of c fd = elim (lookup fd c.machine_record) [ none ↦ none | some m ↦ some m.type ]

-- 1 for the sockets that are registered as a server of type t.
unfoldable pub registered : ServerType → Option ServerType → ℕ
registered t none = 0
registered t (some s) = if server_type_code s == server_type_code t then 1 else 0

-- A group has each machine of its type once, and no other.
pub record IsValid (c : Center) : Type 0 where
  pub gates : (fd : ℕ) → count fd c.gate_server_group ≡ registered ServerType.gate (type_of c fd)
  pub logics : (fd : ℕ) → count fd c.logic_server_group ≡ registered ServerType.logic (type_of c fd)
  pub dbs : (fd : ℕ) → count fd c.db_server_group ≡ registered ServerType.database (type_of c fd)

count-append : (fd : ℕ) (xs ys : List ℕ) → count fd (xs ++ ys) ≡ count fd xs + count fd ys
unfolding count
count-append fd [] ys = ground arith
count-append fd (x ∷ xs) ys = ground (arith, count-append fd xs ys)

count-remove :
    (fd p : ℕ) (group : List ℕ)
    → count fd (remove_server_from_group group p)
      ≡ (if p == fd then count fd group - 1 else count fd group)
unfolding count remove_server_from_group
count-remove fd p [] = ground arith
count-remove fd p (x ∷ group) = ground (arith, count-remove fd p group)

-- Writing a machine changes the type of its socket only.
pub type_of-set_machine :
    (fd f : ℕ) (m : ServerInfo) (c : Center)
    → type_of (set_machine fd m c) f ≡ (if fd == f then some m.type else type_of c f)
unfolding type_of
type_of-set_machine fd f m c = ground (arith, lookup-insert fd f m c.machine_record)

type_of-machine :
    (c : Center) (fd : ℕ) (t : ServerType) → type_of c fd ≡ some t → (machine c fd).type ≡ t
unfolding type_of
type_of-machine c fd t h = ground (arith, h)

-- Counting people leaves the groups and the types as they are.
pub record Kept (c d : Center) : Type 0 where
  pub gates : d.gate_server_group ≡ c.gate_server_group
  pub logics : d.logic_server_group ≡ c.logic_server_group
  pub dbs : d.db_server_group ≡ c.db_server_group
  pub types : (fd : ℕ) → type_of d fd ≡ type_of c fd

pub Kept-IsValid : (c d : Center) → Kept c d → IsValid c → IsValid d
Kept-IsValid c d k v = record {
  gates = λ fd. ground (arith, k.gates, k.types fd, v.gates fd);
  logics = λ fd. ground (arith, k.logics, k.types fd, v.logics fd);
  dbs = λ fd. ground (arith, k.dbs, k.types fd, v.dbs fd);
}

pub Kept-set_machine :
    (c : Center) (fd : ℕ) (m : ServerInfo)
    → type_of c fd ≡ some m.type
    → Kept c (set_machine fd m c)
Kept-set_machine c fd m h = record {
  gates = refl;
  logics = refl;
  dbs = refl;
  types = λ f. ground (arith, type_of-set_machine fd f m c, h);
}

-- What registering a machine adds to each group.
pub record Added (c d : Center) (fd : ℕ) (t : ServerType) : Type 0 where
  pub gates :
      (f : ℕ)
      → count f d.gate_server_group
        ≡ count f c.gate_server_group + (if fd == f then registered ServerType.gate (some t) else 0)
  pub logics :
      (f : ℕ)
      → count f d.logic_server_group
        ≡ count f c.logic_server_group
          + (if fd == f then registered ServerType.logic (some t) else 0)
  pub dbs :
      (f : ℕ)
      → count f d.db_server_group
        ≡ count f c.db_server_group
          + (if fd == f then registered ServerType.database (some t) else 0)
  pub types : (f : ℕ) → type_of d f ≡ (if fd == f then some t else type_of c f)

pub Added-register_server :
    (c : Center) (fd : ℕ) (t : ServerType)
    → type_of c fd ≡ some t
    → Added c (register_server fd c) fd t
unfolding register_server type_of registered server_type_code count
Added-register_server c fd t h =
    let e = type_of-machine c fd t h in
    record {
      gates = λ f. ground (arith, count-append f c.gate_server_group (fd ∷ []), e);
      logics = λ f. ground (arith, count-append f c.logic_server_group (fd ∷ []), e);
      dbs = λ f. ground (arith, count-append f c.db_server_group (fd ∷ []), e);
      types = λ f. ground (
        arith,
        lookup-insert fd f (record (machine c fd) { id = length c.gate_server_group })
            c.machine_record,
        lookup-insert fd f (record (machine c fd) { id = length c.logic_server_group })
            c.machine_record,
        lookup-insert fd f (record (machine c fd) { id = length c.db_server_group })
            c.machine_record,
        e,
        h,
      );
    }

pub Added-IsValid :
    (c d : Center) (fd : ℕ) (m : ServerInfo)
    → IsValid c
    → type_of c fd ≡ none
    → Added (set_machine fd m c) d fd m.type
    → IsValid d
unfolding registered
Added-IsValid c d fd m v new a = record {
  gates = λ f. ground (arith, a.gates f, a.types f, v.gates f, new, type_of-set_machine fd f m c);
  logics =
      λ f. ground (arith, a.logics f, a.types f, v.logics f, new, type_of-set_machine fd f m c);
  dbs = λ f. ground (arith, a.dbs f, a.types f, v.dbs f, new, type_of-set_machine fd f m c);
}

pub close_client_socket-IsValid :
    (fd : ℕ) (c : Center) → IsValid c → IsValid (close_client_socket fd c)
unfolding close_client_socket remove_server type_of registered server_type_code
close_client_socket-IsValid fd c v = record {
  gates = λ f.
      ground (
        arith,
        lookup-erase fd f c.machine_record,
        count-remove f fd c.gate_server_group,
        v.gates f,
      );
  logics = λ f. ground (
    arith,
    lookup-erase fd f c.machine_record,
    count-remove f fd c.logic_server_group,
    v.logics f,
  );
  dbs = λ f.
      ground
        (arith, lookup-erase fd f c.machine_record, count-remove f fd c.db_server_group, v.dbs f);
}
