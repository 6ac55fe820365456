-- ===== src/Room/Operations.antt =====
-- Operations of players in src/Logic/Room.cpp: from OnUserOperate to the frame that Tick sends.
use ancestral_property_serve.Prelude.{
  ℕ, ◌+◌, ◌≡◌, refl, true, none, some, List, [], ◌∷◌, ◌++◌, map, append_assoc, append-nil, lookup,
  keys, ap, ◌∙◌, arith, Map,
}
use ancestral_property_serve.Enums.{BodyType}
use ancestral_property_serve.Room.State.{Room, Frame, UserOperate, Body}
use ancestral_property_serve.Room.Game.{tick, on_user_operate, broad_cast_to_game}

-- The operations of the users of a room, each under its user's pid; others' are dropped.
unfoldable pub stamped : Map ℕ → List (ℕ × UserOperate) → List UserOperate
stamped users [] = []
stamped users ((u, op) ∷ ops) =
    let rest = stamped users ops in
    elim (lookup u users) [
      | none ↦ rest
      | some p ↦ record { values = op.values; opt = op.opt; userpid = p } ∷ rest
    ]

unfoldable pub operate_each : Room → List (ℕ × UserOperate) → Room
operate_each r [] = r
operate_each r ((u, op) ∷ ops) = operate_each (on_user_operate u (some op) r) ops

on_user_operate-eq :
    (u : ℕ) (op : UserOperate) (r : Room)
    → r.m_game_started ≡ true
    → on_user_operate u (some op) r ≡ record r {
      frame = record {
        frame_id = r.frame.frame_id;
        operates = r.frame.operates ++ stamped r.userid2userpid ((u, op) ∷ []);
      };
    }
unfolding on_user_operate stamped
on_user_operate-eq u op r e = ground (arith, append-nil r.frame.operates)

stamped-cons :
    (users : Map ℕ) (u : ℕ) (op : UserOperate) (ops : List (ℕ × UserOperate))
    → stamped users ((u, op) ∷ ops) ≡ stamped users ((u, op) ∷ []) ++ stamped users ops
unfolding stamped
stamped-cons users u op ops = ground arith

operate_each-eq :
    (ops : List (ℕ × UserOperate)) (r : Room)
    → r.m_game_started ≡ true
    → operate_each r ops ≡ record r {
      frame = record {
        frame_id = r.frame.frame_id;
        operates = r.frame.operates ++ stamped r.userid2userpid ops;
      };
    }
unfolding operate_each stamped
operate_each-eq [] r e = ground (arith, append-nil r.frame.operates)
operate_each-eq ((u, op) ∷ ops) r e =
    let users = r.userid2userpid in
    let step = on_user_operate-eq u op r e in
    ground (
      arith,
      step,
      operate_each-eq ops (on_user_operate u (some op) r) (ap (λ x. x.m_game_started) step ∙ e),
      stamped-cons users u op ops,
      append_assoc r.frame.operates (stamped users ((u, op) ∷ [])) (stamped users ops),
    )

-- The frame that the next tick makes of pending operations.
abbrev pub next_frame : Room → List UserOperate → Frame
next_frame r ops = record { frame_id = r.frame_id + 1; operates = r.frame.operates ++ ops }

-- In a running game, operations that arrive between two ticks go out with the second: it sends each
-- player one frame, with the next number, that has what was pending and then the operations of the
-- room's users in order of arrival, each under its user's pid; it archives that frame, and nothing
-- is pending.
pub operations_broadcast :
    (r : Room) (ops : List (ℕ × UserOperate))
    → r.m_game_started ≡ true
    → let r' = (tick true (operate_each r ops)).0 in
      let now = next_frame r (stamped r.userid2userpid ops) in
      (r'.outbox
        ≡ r.outbox
          ++ map
              (λ u. record { type = BodyType.frame; body = Body.frame now; userid = u })
              (keys r.in_game_id2pid))
      × (r'.all_frames ≡ r.all_frames ++ now ∷ [])
      × (r'.frame_id ≡ r.frame_id + 1)
      × (r'.frame.operates ≡ [])
unfolding tick broad_cast_to_game
operations_broadcast r ops e = rw (operate_each-eq ops r e, e) (refl, refl, refl, refl)
