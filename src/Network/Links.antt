-- ===== src/Network/Links.antt =====
-- The connections that FuncServer (src/Source/FuncServer.cpp) opens: to the center server in
-- SendSelfInfoToCenter, and to the servers that the center server names in HandleServerInfo. The list
-- of links is what connecting gives each time: a socket, and whether epoll takes it.
use ancestral_property_serve.Prelude.{
  ℕ, zero, suc, ℤ, sucℤ, Bool, Option, none, some, is_some, List, [], ◌∷◌, ◌++◌, if◌then◌else◌,
}
use ancestral_property_serve.Enums.{ServerType, ServerFreeLevel, CallbackType}
use ancestral_property_serve.Timer.{Timer, new_timer, start}
use ancestral_property_serve.Network.{
  Coder, Base, is_gate, new_connection, send_to_center, send_conns_change,
}

-- DynamicCalcServerFreeLevel. A negative count runs off its end, which is undefined.
unfoldable pub dynamic_calc_server_free_level : ℤ → Option ServerFreeLevel
dynamic_calc_server_free_level (ℤ.pos zero) = some ServerFreeLevel.free
dynamic_calc_server_free_level (ℤ.pos (suc zero)) = some ServerFreeLevel.common
dynamic_calc_server_free_level (ℤ.pos (suc (suc n))) = some ServerFreeLevel.busy
dynamic_calc_server_free_level (ℤ.negsuc n) = none

-- The start of the timers that try to connect.
abbrev pub start_retry : List (CallbackType × Timer) → List (CallbackType × Timer)
start_retry [] = []
start_retry ((CallbackType.func_server_try_to_connect_available_server, t) ∷ ts) =
    (CallbackType.func_server_try_to_connect_available_server, start t) ∷ start_retry ts
start_retry ((type, t) ∷ ts) = (type, t) ∷ start_retry ts

module _ (p : Coder) (sends : ℕ → Bool) where
  -- SendSelfInfoToCenter, which calls itself after it has connected. `none` is an undefined result, or
  -- a call that has used up the links and goes on.
  unfoldable pub send_self_info_to_center : List (Option ℕ × Bool) → List ℕ → Base → Option Base
  send_self_info_to_center [] memory b = elim (dynamic_calc_server_free_level b.conns_count) [
    | none ↦ none
    | some level ↦
        (let (ok, b1) = send_to_center p sends (p.server_info b.server_type level) b in
          if ok then some b1 else none)
  ]
  send_self_info_to_center ((link, added) ∷ links) memory b =
      elim (dynamic_calc_server_free_level b.conns_count) [
        | none ↦ none
        | some level ↦
            (let (ok, b1) = send_to_center p sends (p.server_info b.server_type level) b in
              let b2 : Base = record b1 { center_server_client = link } in
              if ok then some b1 else elim link [
                | none ↦ some b2
                | some fd ↦
                    (let rest =
                        send_self_info_to_center links memory (new_connection fd memory b2) in
                      if added then rest else some b2)
              ])
      ]

  -- After a connection to another server than the center is made.
  abbrev pub linked : ℕ → List ℕ → Base → Base
  linked fd memory b =
      let b1 = new_connection fd memory b in
      if is_gate b.server_type then b1 else send_conns_change p sends sucℤ b1

  abbrev pub retry : Base → Base
  retry b = record b { m_callfunc_list = start_retry b.m_callfunc_list }

  -- HandleServerInfo of a message with the operation Connect.
  unfoldable pub handle_server_info : ServerType → Option ℕ → Bool → List ℕ → Base → Base
  handle_server_info ServerType.logic link added memory b =
      if is_some b.logic_server_client
      then b
      else (let b1 : Base = record b { logic_server_client = link } in
          elim link [ none ↦ b1 | some fd ↦ if added then retry (linked fd memory b1) else b1 ])
  handle_server_info ServerType.database link added memory b =
      if is_some b.db_server_client
      then b
      else (let b1 : Base = record b { db_server_client = link } in
          elim link [ none ↦ b1 | some fd ↦ if added then retry (linked fd memory b1) else b1 ])
  handle_server_info _ link added memory b = retry b

  -- OnListenerStart, with the interval JSON.SEND_CENTERSERVER_TIME.
  abbrev on_listener_start : ℕ → List (Option ℕ × Bool) → List ℕ → Base → Option Base
  on_listener_start interval links memory b = elim (send_self_info_to_center links memory b) [
    | none ↦ none
    | some c ↦ some (record c {
      m_callfunc_list =
          c.m_callfunc_list
          ++ (CallbackType.func_server_send_self_info_to_center, start (new_timer interval)) ∷ [];
    })
  ]
