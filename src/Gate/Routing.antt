-- ===== src/Gate/Routing.antt =====
-- CheckMessageValid and OnMsgBodyAnalysised of src/Source/GateServer.cpp: where a package goes.
use ancestral_property_serve.Prelude.{
  ℕ, Bool, true, ◌||◌, none, some, lookup, insert, erase, touch, at, ◌==◌, if◌then◌else◌,
}
use ancestral_property_serve.Enums.{BodyType, body_type_code}
use ancestral_property_serve.Room.State.{RequestType}
use ancestral_property_serve.Gate.{
  Content, Package, Pointer, Gate, is_client, send_msg, send_to, send_to_user, is_server,
  close_client_socket,
}

-- Whether the package is let in; the test leaves 0 behind for a user who is not known.
unfoldable pub check_message_valid : Package → ℕ → Gate → Bool × Gate
check_message_valid msg fd g =
    if is_server g fd
    then (true, g)
    else if msg.userid == 0
    then (
      body_type_code msg.package_type == body_type_code BodyType.login_request
          || body_type_code msg.package_type == body_type_code BodyType.regist_request,
      g,
    )
    else (
      fd == at msg.userid 0 g.user_fd_record,
      record g { user_fd_record = touch msg.userid 0 g.user_fd_record },
    )

-- The cases of JoinRoom, LeaveRoom, CreateRoom and GetRoomList.
unfoldable pub route_content : Content → Package → Gate → Gate
route_content (Content.room_message RequestType.request rest) msg g =
    send_to msg g.logic_server_client g
route_content (Content.room_message RequestType.response rest) msg g = send_to_user msg g
route_content _ msg g = g

abbrev pub route_room : Package → Gate → Gate
route_room msg = route_content msg.content msg

-- The case of LoginResponse: the head holds the client's socket.
unfoldable pub route_login_response : Package → Gate → Gate
route_login_response msg g = elim msg.content [
  | Content.login_response result userid ↦
      (let user_fd = msg.userid in
        let m = record msg { userid = userid } in
        if result
        then (let g1 : Gate = elim (lookup userid g.user_fd_record) [
          | none ↦ g
          | some old ↦ close_client_socket old g
        ] in
            let g2 = record g1 {
              user_fd_record = insert userid user_fd g1.user_fd_record;
              fd_user_record = insert user_fd userid g1.fd_user_record;
            } in
            send_msg m user_fd (send_to m g2.logic_server_client g2))
        else send_msg m user_fd g)
  | _ ↦ g
]

-- The case of UserHeart: `now` is the time.
unfoldable pub route_heart : ℕ → Package → ℕ → Gate → Gate
route_heart now msg fd g =
    if is_server g fd then g else elim (lookup msg.userid g.user_connections) [
      | some (Pointer.live c) ↦ record g {
        user_connections =
            insert msg.userid (Pointer.live (record c { m_lst_ms = now })) g.user_connections;
      }
      | some Pointer.null ↦ record g { undefined = true }
      | some Pointer.freed ↦ record g { undefined = true }
      | none ↦ record g {
        user_fd_record = touch msg.userid 0 g.user_fd_record;
        user_connections =
            insert msg.userid
              (Pointer.live (record { m_fd = at msg.userid 0 g.user_fd_record; m_lst_ms = now }))
              g.user_connections;
      }
    ]

-- The switch of OnMsgBodyAnalysised.
unfoldable pub route : BodyType → ℕ → Package → ℕ → Gate → Gate
route BodyType.login_request now msg fd g =
    send_to (record msg { userid = fd }) g.db_server_client g
route BodyType.login_response now msg fd g = route_login_response msg g
route BodyType.regist_request now msg fd g =
    send_to (record msg { userid = fd }) g.db_server_client g
route BodyType.regist_response now msg fd g = send_msg msg msg.userid g
route BodyType.join_room now msg fd g = route_room msg g
route BodyType.leave_room now msg fd g = route_room msg g
route BodyType.create_room now msg fd g = route_room msg g
route BodyType.get_room_list now msg fd g = route_room msg g
route BodyType.change_role now msg fd g = send_to msg g.logic_server_client g
route BodyType.join_game now msg fd g = send_to msg g.logic_server_client g
route BodyType.quit_game now msg fd g = send_to msg g.logic_server_client g
route BodyType.notify_room_info now msg fd g = send_to_user msg g
route BodyType.start_game now msg fd g =
    if is_client g.logic_server_client fd
    then send_to_user msg g
    else send_to msg g.logic_server_client g
route BodyType.user_operate now msg fd g = send_to msg g.logic_server_client g
route BodyType.frame now msg fd g = send_to_user msg g
route BodyType.reconnect now msg fd g = send_to_user msg g
route BodyType.chase_frame now msg fd g = send_to_user msg g
route BodyType.user_heart now msg fd g = route_heart now msg fd g
route _ now msg fd g = g

-- FuncServer::HandleUserInfo (src/Source/FuncServer.cpp), which comes before every test.
unfoldable pub handle_user_info : Package → Gate → Gate
handle_user_info msg g = elim msg.content [
  | Content.user_register fd ↦ record g { user_fd_record = insert msg.userid fd g.user_fd_record }
  | Content.user_logout userid fd ↦ record g { user_fd_record = erase msg.userid g.user_fd_record }
  | _ ↦ g
]

-- A package of a socket that has a user gets that user's id.
abbrev pub trusted : Package → ℕ → Gate → Package
trusted msg fd g = elim (lookup fd g.fd_user_record) [
  | none ↦ msg
  | some u ↦ record msg { userid = u }
]

-- OnMsgBodyAnalysised without JSON.PRESSURE_TEST.
unfoldable pub on_msg_body_analysised : ℕ → Package → ℕ → Gate → Gate
on_msg_body_analysised now msg fd g0 =
    let g =
      if body_type_code msg.package_type == body_type_code BodyType.user_info
      then handle_user_info msg g0
      else g0 in
    let (ok, g1) = check_message_valid msg fd g in
    if ok then route msg.package_type now (trusted msg fd g1) fd g1 else g1
