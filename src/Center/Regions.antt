-- ===== src/Center/Regions.antt =====
-- Which gate a client reaches (HandleGetRegionInfoRequest and HandleJoinRegionRequest of
-- src/Source/CenterServer.cpp).
use ancestral_property_serve.Prelude.{
  ℕ, suc, ◌^◌, ◌≤◌, ◌<◌, ◌≡◌, refl, true, false, contains, none, some, List, [], ◌∷◌, length, zero,
  ◌≢◌, lookup-erase, get_elem?, arith,
}
use ancestral_property_serve.Enums.{ServerType}
use ancestral_property_serve.Center.{
  Center, RegionInfo, Reply, machine, close_client_socket, remove_server, remove_server_from_group,
}
use ancestral_property_serve.Center.Handlers.{join_region, region_info, region_infos}
use ancestral_property_serve.Center.Groups.{count}

length-remove :
    (fd : ℕ) (group : List ℕ)
    → 0 < count fd group
    → suc (length (remove_server_from_group group fd)) ≡ length group
unfolding count remove_server_from_group
length-remove fd [] h = ground (arith, h)
length-remove fd (p ∷ group) h = ground (arith, h, length-remove fd group)

get_elem?-none : (xs : List ℕ) (i : ℕ) → length xs ≤ i → get_elem? xs i ≡ none
get_elem?-none [] i h = refl
get_elem?-none (x ∷ xs) zero h = ground (arith, h)
get_elem?-none (x ∷ xs) (suc i) h = get_elem?-none xs i (omega (arith, h))

get_elem?-region_infos :
    (c : Center) (group : List ℕ) (i fd : ℕ)
    → get_elem? group i ≡ some fd
    → (info : RegionInfo) × (get_elem? (region_infos c group) i ≡ some info)
      × (info.id ≡ (machine c fd).id)
      × (info.server_name ≡ (machine c fd).name)
unfolding region_infos
get_elem?-region_infos c [] i fd h = ground (arith, h)
get_elem?-region_infos c (p ∷ group) zero fd h =
    (region_info (machine c p), refl, ground (arith, h), ground (arith, h))
get_elem?-region_infos c (p ∷ group) (suc i) fd h = get_elem?-region_infos c group i fd h

-- A region is joined by its place in the list of regions: the gate whose name and id are at that
-- place of the answer is the one whose address the client gets.
pub join_region-region_infos :
    (c : Center) (i fd : ℕ)
    → i < 2 ^ 31
    → get_elem? c.gate_server_group i ≡ some fd
    → (info : RegionInfo) × (get_elem? (region_infos c c.gate_server_group) i ≡ some info)
      × (info.id ≡ (machine c fd).id)
      × (info.server_name ≡ (machine c fd).name)
      × (join_region c i ≡ Reply.join_region_response true (machine c fd).ip (machine c fd).port)
unfolding join_region
join_region-region_infos c i fd small h =
    let (info, a, b, d) = get_elem?-region_infos c c.gate_server_group i fd h in
    (info, a, b, d, ground (arith, h, small))

-- The ids of the regions are not renewed: when a gate f closes and g is the gate that registered
-- last, g keeps an id that no place of the group has any more, and joining g under it is refused.
pub close-stale_id :
    (c : Center) (f g : ℕ)
    → contains f c.machine_record ≡ true
    → (machine c f).type ≡ ServerType.gate
    → 0 < count f c.gate_server_group
    → f ≢ g
    → suc (machine c g).id ≡ length c.gate_server_group
    → let d = close_client_socket f c in
      ((machine d g).id ≡ (machine c g).id)
      × (join_region d (machine d g).id ≡ Reply.join_region_response false "" 0)
unfolding join_region close_client_socket remove_server
close-stale_id c f g known gate in_group apart last =
    let kept : (machine (close_client_socket f c) g).id ≡ (machine c g).id =
      ground (arith, known, gate, apart, lookup-erase f g c.machine_record) in
    let shorter = length-remove f c.gate_server_group in_group in
    let gone =
      get_elem?-none (remove_server_from_group c.gate_server_group f) (machine c g).id
        (omega (arith, shorter, last)) in
    (kept, ground (arith, kept, known, gate, gone))
