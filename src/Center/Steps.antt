-- ===== src/Center/Steps.antt =====
-- The calls of a center server, one after another (src/Source/CenterServer.cpp).
use text.Mathlib.Text.{◌==◌ as ◌=ₛ◌}
use ancestral_property_serve.Prelude.{
  ◌&&◌, ◌∙◌, ℕ, ◌≡◌, ◌<◌, refl, true, false, none, some, List, [], ◌∷◌, lookup, contains, is_some,
  ◌==◌, if◌then◌else◌, if_keeps, arith,
}
use ancestral_property_serve.Enums.{ServerType}
use ancestral_property_serve.Center.{Center, ServerInfo, machine, set_machine, register_server}
use ancestral_property_serve.Center.Handlers.{
  InfoBody, ConnChange, Event, Operation, handle_operation, info_of, count_by_type, count_in_group,
  step, run, handle_get_region_info_request, handle_join_region_request, new_center,
}
use ancestral_property_serve.Center.Groups.{
  count, type_of, registered, IsValid, Kept, Kept-set_machine, Kept-IsValid, Added-register_server,
  Added-IsValid, type_of-set_machine, close_client_socket-IsValid,
}

-- Every socket of a group is registered.
Known : List ℕ → Center → Type 0
Known group c = (f : ℕ) → 0 < count f group → is_some (type_of c f) ≡ true

Kept-trans : (c d e : Center) → Kept c d → Kept d e → Kept c e
Kept-trans c d e k l = record {
  gates = l.gates ∙ k.gates;
  logics = l.logics ∙ k.logics;
  dbs = l.dbs ∙ k.dbs;
  types = λ f. l.types f ∙ k.types f;
}

Kept-refl : (c : Center) → Kept c c
Kept-refl c = record { gates = refl; logics = refl; dbs = refl; types = λ f. refl }

type_of-known :
    (c : Center) (fd : ℕ) → is_some (type_of c fd) ≡ true → type_of c fd ≡ some (machine c fd).type
unfolding type_of
type_of-known c fd h = ground (arith, h)

Known-Kept : (group : List ℕ) (c d : Center) → Kept c d → Known group c → Known group d
unfolding Known
Known-Kept group c d k known f pos = rw (k.types f) (known f pos)

Known-tail : (fd : ℕ) (group : List ℕ) (c : Center) → Known (fd ∷ group) c → Known group c
unfolding Known count
Known-tail fd group c known f pos = known f (ground (arith, pos))

Known-head :
    (fd : ℕ) (group : List ℕ) (c : Center)
    → Known (fd ∷ group) c
    → type_of c fd ≡ some (machine c fd).type
unfolding Known count
Known-head fd group c known = type_of-known c fd (known fd (ground arith))

count_in_group-Kept :
    (r : ConnChange) (group : List ℕ) (c : Center)
    → Known group c
    → Kept c (count_in_group r group c)
unfolding count_in_group
count_in_group-Kept r [] c known = Kept-refl c
count_in_group-Kept r (fd ∷ group) c known =
    let m = machine c fd in
    let b = r.ip =ₛ m.ip && r.port == m.port in
    let d = if b then set_machine fd (record m { people_count = r.change }) c else c in
    let k =
      if_keeps (Kept c) b {x = set_machine fd (record m { people_count = r.change }) c} {y = c}
        (λ h.
          Kept-set_machine c fd (record m { people_count = r.change })
            (Known-head fd group c known))
        (λ h. Kept-refl c) in
    Kept-trans c d (count_in_group r group d) k
      (count_in_group-Kept r group d (Known-Kept group c d k (Known-tail fd group c known)))

Known-IsValid :
    (c : Center) (t : ServerType) (group : List ℕ)
    → ((f : ℕ) → count f group ≡ registered t (type_of c f))
    → Known group c
unfolding Known registered
Known-IsValid c t group h f pos = ground (arith, h f, pos)

count_in_group-IsValid :
    (t : ServerType) (group : List ℕ) (r : ConnChange) (c : Center)
    → ((f : ℕ) → count f group ≡ registered t (type_of c f))
    → IsValid c
    → IsValid (count_in_group r group c)
count_in_group-IsValid t group r c h =
    Kept-IsValid c (count_in_group r group c)
      (count_in_group-Kept r group c (Known-IsValid c t group h))

count_by_type-IsValid :
    (t : ServerType) (r : ConnChange) (c : Center) → IsValid c → IsValid (count_by_type t r c)
unfolding count_by_type
count_by_type-IsValid ServerType.gate r c v =
    count_in_group-IsValid ServerType.gate c.gate_server_group r c v.gates v
count_by_type-IsValid ServerType.logic r c v =
    count_in_group-IsValid ServerType.logic c.logic_server_group r c v.logics v
count_by_type-IsValid ServerType.database r c v =
    count_in_group-IsValid ServerType.database c.db_server_group r c v.dbs v
count_by_type-IsValid ServerType.none r c v = v
count_by_type-IsValid ServerType.center r c v = v
count_by_type-IsValid ServerType.match r c v = v

register_server-Known :
    (fd : ℕ) (m : ServerInfo) (c : Center)
    → type_of c fd ≡ none
    → IsValid c
    → IsValid (register_server fd (set_machine fd m c))
      × (type_of (register_server fd (set_machine fd m c)) fd
          ≡ some (machine (register_server fd (set_machine fd m c)) fd).type)
register_server-Known fd m c new v =
    let n = set_machine fd m c in
    let d = register_server fd n in
    let a = Added-register_server n fd m.type (ground (arith, type_of-set_machine fd fd m c)) in
    (Added-IsValid c d fd m v new a, type_of-known d fd (ground (arith, a.types fd)))

missing-type_of : (fd : ℕ) (c : Center) → contains fd c.machine_record ≡ false → type_of c fd ≡ none
unfolding type_of
missing-type_of fd c h = ground (arith, h)

present-type_of :
    (fd : ℕ) (c : Center)
    → contains fd c.machine_record ≡ true
    → type_of c fd ≡ some (machine c fd).type
unfolding type_of
present-type_of fd c h = ground (arith, h)

known-IsValid :
    (body : InfoBody) (fd : ℕ) (c : Center)
    → IsValid c
    → let d =
        if contains fd c.machine_record
        then c
        else register_server fd (set_machine fd (info_of body) c) in
      IsValid d × (type_of d fd ≡ some (machine d fd).type)
known-IsValid body fd c v =
    if_keeps (λ d. IsValid d × (type_of d fd ≡ some (machine d fd).type))
      (contains fd c.machine_record) (λ h. (v, present-type_of fd c h))
      (λ h. register_server-Known fd (info_of body) c (missing-type_of fd c h) v)

handle_operation-IsValid :
    (o : Operation) (info : ServerInfo) (body : InfoBody) (fd : ℕ) (c : Center)
    → IsValid c
    → IsValid (handle_operation o info body fd c)
unfolding handle_operation type_of
handle_operation-IsValid Operation.register info body fd c v =
    let k = known-IsValid body fd c v in
    let d =
      if contains fd c.machine_record
      then c
      else register_server fd (set_machine fd (info_of body) c) in
    let m = record (machine d fd) { level = body.server_free_level } in
    Kept-IsValid d (set_machine fd m d) (Kept-set_machine d fd m k.1) k.0
handle_operation-IsValid Operation.requst_assgin info body fd c v = record {
  gates = v.gates;
  logics = v.logics;
  dbs = v.dbs;
}
handle_operation-IsValid Operation.connect info body fd c v = v

pub step-IsValid : (e : Event) (c : Center) → IsValid c → IsValid (step e c)
unfolding step handle_get_region_info_request handle_join_region_request type_of
step-IsValid (Event.server_info info body fd) c v =
    handle_operation-IsValid body.opt info body fd c v
step-IsValid (Event.user_info fd) c v = v
step-IsValid (Event.get_region_info_request fd) c v = record {
  gates = v.gates;
  logics = v.logics;
  dbs = v.dbs;
}
step-IsValid (Event.join_region_request id fd) c v = record {
  gates = v.gates;
  logics = v.logics;
  dbs = v.dbs;
}
step-IsValid (Event.server_conn_change r) c v = count_by_type-IsValid r.type r c v
step-IsValid (Event.closed fd) c v = close_client_socket-IsValid fd c v

-- Whatever messages and lost connections reach a new center server, in any order, each of its groups
-- then has every machine that is registered with the group's type once, and no other.
pub run-new_center-IsValid : (es : List Event) → IsValid (run es new_center)
unfolding run count type_of registered lookup
run-new_center-IsValid es =
    from es new_center (record { gates = λ f. refl; logics = λ f. refl; dbs = λ f. refl })
  where
    from : (es : List Event) (c : Center) → IsValid c → IsValid (run es c)
    from [] c v = v
    from (e ∷ es) c v = from es (step e c) (step-IsValid e c v)
