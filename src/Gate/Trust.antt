-- ===== src/Gate/Trust.antt =====
-- Who a package is from (CheckMessageValid and OnMsgBodyAnalysised of src/Source/GateServer.cpp).
use ancestral_property_serve.Prelude.{
  ℕ, ◌≡◌, ◌≢◌, ◌⊎◌, ◌∙◌, ap, sym, subst, inl, inr, refl, Option, none, some, [], ◌∷◌, ◌++◌, lookup,
  contains, touch, ◌==◌, if◌then◌else◌, if_keeps, arith,
}
use ancestral_property_serve.Enums.{BodyType, body_type_code}
use ancestral_property_serve.Gate.{
  Gate, Package, Content, send_msg, send_to, send_to_user, is_client,
}
use ancestral_property_serve.Gate.Routing.{
  route, route_content, route_heart, trusted, check_message_valid, on_msg_body_analysised,
  handle_user_info,
}
use ancestral_property_serve.Room.State.{RequestType}

-- The gate h has sent what g had, and at most the package m besides.
abbrev pub AtMost : Package → Gate → Gate → Type 0
AtMost m g h = (h.outbox ≡ g.outbox) ⊎ ((to : ℕ) × (h.outbox ≡ g.outbox ++ (to, m) ∷ []))

AtMost-send_msg : (m : Package) (fd : ℕ) (g : Gate) → AtMost m g (send_msg m fd g)
unfolding send_msg
AtMost-send_msg m fd g =
    if_keeps (AtMost m g) (contains fd g.connections) (λ _. inr (fd, refl)) (λ _. inl refl)

AtMost-send_to : (m : Package) (o : Option ℕ) (g : Gate) → AtMost m g (send_to m o g)
unfolding send_to
AtMost-send_to m none g = inl refl
AtMost-send_to m (some fd) g = AtMost-send_msg m fd g

AtMost-send_to_user : (m : Package) (g : Gate) → AtMost m g (send_to_user m g)
unfolding send_to_user
AtMost-send_to_user m g =
    AtMost-send_msg m _ (record g { user_fd_record = touch m.userid 0 g.user_fd_record })

AtMost-route_content : (c : Content) (m : Package) (g : Gate) → AtMost m g (route_content c m g)
unfolding route_content
AtMost-route_content (Content.room_message RequestType.request rest) m g =
    AtMost-send_to m g.logic_server_client g
AtMost-route_content (Content.room_message RequestType.response rest) m g = AtMost-send_to_user m g
AtMost-route_content _ m g = inl refl

AtMost-route_heart :
    (now : ℕ) (m : Package) (fd : ℕ) (g : Gate) → AtMost m g (route_heart now m fd g)
unfolding route_heart
AtMost-route_heart now m fd g = inl (ground arith)

-- The types under which a client with a user is routed by its user.
abbrev pub ByUser : BodyType → Type 0
ByUser BodyType.login_request = BodyType.login_request ≢ BodyType.login_request
ByUser BodyType.login_response = BodyType.login_response ≢ BodyType.login_response
ByUser BodyType.regist_request = BodyType.regist_request ≢ BodyType.regist_request
ByUser _ = Unit {0}

route-AtMost :
    (t : BodyType) (now : ℕ) (m : Package) (fd : ℕ) (g : Gate)
    → ByUser t
    → AtMost m g (route t now m fd g)
unfolding route
route-AtMost BodyType.login_request now m fd g b = ground (arith, b)
route-AtMost BodyType.login_response now m fd g b = ground (arith, b)
route-AtMost BodyType.regist_request now m fd g b = ground (arith, b)
route-AtMost BodyType.regist_response now m fd g b = AtMost-send_msg m m.userid g
route-AtMost BodyType.join_room now m fd g b = AtMost-route_content m.content m g
route-AtMost BodyType.leave_room now m fd g b = AtMost-route_content m.content m g
route-AtMost BodyType.create_room now m fd g b = AtMost-route_content m.content m g
route-AtMost BodyType.get_room_list now m fd g b = AtMost-route_content m.content m g
route-AtMost BodyType.change_role now m fd g b = AtMost-send_to m g.logic_server_client g
route-AtMost BodyType.join_game now m fd g b = AtMost-send_to m g.logic_server_client g
route-AtMost BodyType.quit_game now m fd g b = AtMost-send_to m g.logic_server_client g
route-AtMost BodyType.notify_room_info now m fd g b = AtMost-send_to_user m g
route-AtMost BodyType.start_game now m fd g b =
    if_keeps (AtMost m g) (is_client g.logic_server_client fd) (λ _. AtMost-send_to_user m g)
      (λ _. AtMost-send_to m g.logic_server_client g)
route-AtMost BodyType.user_operate now m fd g b = AtMost-send_to m g.logic_server_client g
route-AtMost BodyType.frame now m fd g b = AtMost-send_to_user m g
route-AtMost BodyType.reconnect now m fd g b = AtMost-send_to_user m g
route-AtMost BodyType.chase_frame now m fd g b = AtMost-send_to_user m g
route-AtMost BodyType.user_heart now m fd g b = AtMost-route_heart now m fd g
route-AtMost _ now m fd g b = inl refl

check_message_valid-kept :
    (msg : Package) (fd : ℕ) (g : Gate)
    → let h = (check_message_valid msg fd g).1 in
      (h.outbox ≡ g.outbox) × (h.fd_user_record ≡ g.fd_user_record)
unfolding check_message_valid
check_message_valid-kept msg fd g = (ground arith, ground arith)

handle_user_info-kept :
    (msg : Package) (g : Gate)
    → ((handle_user_info msg g).outbox ≡ g.outbox)
      × ((handle_user_info msg g).fd_user_record ≡ g.fd_user_record)
unfolding handle_user_info
handle_user_info-kept msg g = (ground arith, ground arith)

AtMost-from : (m : Package) (g h k : Gate) → h.outbox ≡ g.outbox → AtMost m h k → AtMost m g k
AtMost-from m g h k e (inl f) = inl (f ∙ e)
AtMost-from m g h k e (inr (to, f)) = inr (to, f ∙ ap (λ o. o ++ (to, m) ∷ []) e)

trusted-eq :
    (msg : Package) (fd u : ℕ) (g : Gate)
    → lookup fd g.fd_user_record ≡ some u
    → trusted msg fd g ≡ record msg { userid = u }
trusted-eq msg fd u g e = rw (e, trusted) refl

-- A package of a socket that user u is logged in on is sent on to at most one socket, and then under
-- the user id u, whatever user id the client wrote into it, unless it is a login request, a login
-- response or a registration request.
pub on_msg_body_analysised-trusted :
    (now : ℕ) (msg : Package) (fd u : ℕ) (g : Gate)
    → lookup fd g.fd_user_record ≡ some u
    → ByUser msg.package_type
    → AtMost (record msg { userid = u }) g (on_msg_body_analysised now msg fd g)
unfolding on_msg_body_analysised
on_msg_body_analysised-trusted now msg fd u g e b =
    let c = body_type_code msg.package_type == body_type_code BodyType.user_info in
    let g0 = if c then handle_user_info msg g else g in
    let kept =
      if_keeps (λ h. (h.outbox ≡ g.outbox) × (h.fd_user_record ≡ g.fd_user_record)) c
        {x = handle_user_info msg g} {y = g} (λ _. handle_user_info-kept msg g)
        (λ _. (refl, refl)) in
    let valid = check_message_valid-kept msg fd g0 in
    let g1 = (check_message_valid msg fd g0).1 in
    let m : Package = record msg { userid = u } in
    let known : trusted msg fd g1 ≡ m =
      trusted-eq msg fd u g1 (ap (lookup fd) (valid.1 ∙ kept.1) ∙ e) in
    if_keeps (AtMost m g) (check_message_valid msg fd g0).0
      (λ _.
        AtMost-from m g g1 (route msg.package_type now (trusted msg fd g1) fd g1) (valid.0 ∙ kept.0)
          (subst (λ t. AtMost m g1 (route msg.package_type now t fd g1)) (sym known)
            (route-AtMost msg.package_type now m fd g1 b)))
      (λ _. inl (valid.0 ∙ kept.0))
