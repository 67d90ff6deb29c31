-- ===== src/NetHelper/Local.antt =====
-- What a request does on the system of channel/uni_network_helper_server.c: its calls send nothing, and
-- the numbers that they give fit the fields of an answer.
use lib_uart_comm_protocol_l.Prelude.{
  ℕ, ◌<◌, ◌^◌, ◌≡◌, refl, arith, Bool, true, false, ◌&&◌, none, some, List, [], ◌∷◌, ◌==◌,
  if◌then◌else◌, length,
}
use lib_uart_comm_protocol_l.NetHelper.Messages.{minus_one, is_positive}
use lib_uart_comm_protocol_l.NetHelper.System.{
  Call, Node, Os, Server, transmit, err_code, put_two, put_three,
}
use lib_uart_comm_protocol_l.NetHelper.System
use lib_uart_comm_protocol_l.NetHelper.Server.{
  call, socket_connect, connect_nodes, websock_nodes, websock_connect,
}
use lib_uart_comm_protocol_l.NetHelper.Request.{
  Request, connect, send, set_sock_option, fcntl, select_write, select_read, timeval, local,
  numbers_of,
}

-- The calls of the system send nothing.
connect_nodes-sent :
    (os : Os) (fd : ℕ) (nodes : List Node) (s : Server)
    → (connect_nodes os fd nodes s).1.sent ≡ s.sent
unfolding connect_nodes call
connect_nodes-sent os fd [] s = refl
connect_nodes-sent os fd (node ∷ rest) s =
    let t = (call os (System.connect fd node.address) s).1 in
    elim ((os.answer s.calls (System.connect fd node.address)).ret == minus_one)
      as (λ b. (if b then connect_nodes os fd rest t else (0, t)).1.sent ≡ s.sent) [
        | true ↦ connect_nodes-sent os fd rest t
        | false ↦ refl
      ]

pub socket_connect-sent :
    (os : Os) (fd : ℕ) (host : List ℕ) (port : ℕ) (s : Server)
    → (socket_connect os fd host port s).1.sent ≡ s.sent
unfolding call socket_connect
socket_connect-sent os fd host port s =
    let t = (call os (System.getaddrinfo host port) s).1 in
    let a = os.answer s.calls (System.getaddrinfo host port) in
    let n = connect_nodes os fd a.addresses t in
    elim (a.ret == 0)
      as (λ b.
        let m : ℕ × Server =
          if b then (n.0, (call os System.freeaddrinfo n.1).1) else (minus_one, t) in
        m.1.sent ≡ s.sent) [ true ↦ connect_nodes-sent os fd a.addresses t | false ↦ refl ]

pub local-sent : (os : Os) (fd : ℕ) (r : Request) (s : Server) → (local os fd r s).1.sent ≡ s.sent
unfolding call socket_connect
local-sent os fd (connect host port) s = socket_connect-sent os fd host port s
local-sent os fd (send bytes flags) s = refl
local-sent os fd (set_sock_option level optname optval) s = refl
local-sent os fd (fcntl cmd val) s = refl
local-sent os fd (select_write timeout) s = refl
local-sent os fd (select_read timeout) s = refl

-- The numbers of an answer fit their fields.
abbrev pub Small : ℕ × ℕ → Type 0
Small n = (n.0 < 2 ^ 32) × (n.1 < 2 ^ 32)

err_code-lt : (ret : ℕ) (s : Server) → s.errno < 2 ^ 32 → err_code ret s < 2 ^ 32
err_code-lt ret s h = ground arith

connect_nodes-lt :
    (os : Os) (fd : ℕ) (nodes : List Node) (s : Server)
    → s.errno < 2 ^ 32
    → ((connect_nodes os fd nodes s).0 < 2 ^ 32) × ((connect_nodes os fd nodes s).1.errno < 2 ^ 32)
unfolding connect_nodes call
connect_nodes-lt os fd [] s h = (omega arith, h)
connect_nodes-lt os fd (node ∷ rest) s h =
    let c = System.connect fd node.address in
    let t = (call os c s).1 in
    elim ((os.answer s.calls c).ret == minus_one)
      as (λ b.
        let n = (if b then connect_nodes os fd rest t else (0, t)) in
        (n.0 < 2 ^ 32) × (n.1.errno < 2 ^ 32)) [
          | true ↦ connect_nodes-lt os fd rest t (os.errno_lt s.calls c)
          | false ↦ (omega arith, os.errno_lt s.calls c)
        ]

socket_connect-lt :
    (os : Os) (fd : ℕ) (host : List ℕ) (port : ℕ) (s : Server)
    → ((socket_connect os fd host port s).0 < 2 ^ 32)
      × ((socket_connect os fd host port s).1.errno < 2 ^ 32)
unfolding socket_connect call
socket_connect-lt os fd host port s =
    let c = System.getaddrinfo host port in
    let t = (call os c s).1 in
    let a = os.answer s.calls c in
    let n = connect_nodes os fd a.addresses t in
    elim (a.ret == 0)
      as (λ b.
        let m : ℕ × Server =
          if b then (n.0, (call os System.freeaddrinfo n.1).1) else (minus_one, t) in
        (m.0 < 2 ^ 32) × (m.1.errno < 2 ^ 32)) [
          | true ↦ (
            (connect_nodes-lt os fd a.addresses t (os.errno_lt s.calls c)).0,
            os.errno_lt n.1.calls System.freeaddrinfo,
          )
          | false ↦ (omega arith, os.errno_lt s.calls c)
        ]

flag-lt : (b : Bool) → (if b then 1 else 0) < 2 ^ 32
flag-lt b = ground arith

pub numbers-Small :
    (os : Os) (fd : ℕ) (r : Request) (s : Server) → Small (numbers_of r (local os fd r s))
unfolding call socket_connect
numbers-Small os fd (connect host port) s =
    let b = socket_connect-lt os fd host port s in
    let n = socket_connect os fd host port s in (b.0, err_code-lt n.0 n.1 b.1)
numbers-Small os fd (send bytes flags) s =
    let c = System.send fd bytes flags in
    (
      os.ret_lt s.calls c,
      err_code-lt (os.answer s.calls c).ret (call os c s).1 (os.errno_lt s.calls c),
    )
numbers-Small os fd (set_sock_option level optname optval) s =
    let c =
      System.setsockopt fd level optname (if length optval == 0 then none else some optval)
        (length optval) in
    (
      os.ret_lt s.calls c,
      err_code-lt (os.answer s.calls c).ret (call os c s).1 (os.errno_lt s.calls c),
    )
numbers-Small os fd (fcntl cmd val) s =
    let c = System.fcntl fd cmd val in
    (
      os.ret_lt s.calls c,
      err_code-lt (os.answer s.calls c).ret (call os c s).1 (os.errno_lt s.calls c),
    )
numbers-Small os fd (select_write timeout) s =
    let a = os.answer s.calls (System.select true fd (timeval timeout)) in
    (omega arith, flag-lt (is_positive a.ret && a.ready))
numbers-Small os fd (select_read timeout) s =
    let a = os.answer s.calls (System.select false fd (timeval timeout)) in
    (flag-lt (is_positive a.ret && a.ready), omega arith)

websock_nodes-sent :
    (os : Os) (nodes : List Node) (s : Server) → (websock_nodes os nodes s).1.sent ≡ s.sent
unfolding websock_nodes call
websock_nodes-sent os [] s = refl
websock_nodes-sent os (node ∷ rest) s =
    let a = os.answer s.calls (System.socket node.family node.socktype node.protocol) in
    let t = (call os (System.socket node.family node.socktype node.protocol) s).1 in
    let b = os.answer t.calls (System.connect a.ret node.address) in
    let t' = (call os (System.connect a.ret node.address) t).1 in
    let t'' = (call os (System.close a.ret) t').1 in
    elim (a.ret == minus_one)
      as (λ none_made.
        let r : ℕ × Server =
          if none_made
          then websock_nodes os rest t
          else (if b.ret == minus_one then websock_nodes os rest t'' else (a.ret, t')) in
        r.1.sent ≡ s.sent) [
          | true ↦ websock_nodes-sent os rest t
          | false ↦
              elim (b.ret == minus_one)
                as (λ failed.
                  let r : ℕ × Server = if failed then websock_nodes os rest t'' else (a.ret, t') in
                  r.1.sent ≡ s.sent) [ true ↦ websock_nodes-sent os rest t'' | false ↦ refl ]
        ]

pub websock_connect-sent :
    (os : Os) (host : List ℕ) (port : ℕ) (s : Server)
    → (websock_connect os host port s).1.sent ≡ s.sent
unfolding websock_connect call
websock_connect-sent os host port s =
    let t = (call os (System.getaddrinfo host port) s).1 in
    let a = os.answer s.calls (System.getaddrinfo host port) in
    let n = websock_nodes os a.addresses t in
    elim (a.ret == 0)
      as (λ b.
        let m : ℕ × Server =
          if b then (n.0, (call os System.freeaddrinfo n.1).1) else (minus_one, t) in
        m.1.sent ≡ s.sent) [ true ↦ websock_nodes-sent os a.addresses t | false ↦ refl ]

websock_nodes-lt :
    (os : Os) (nodes : List Node) (s : Server) → (websock_nodes os nodes s).0 < 2 ^ 32
unfolding websock_nodes call
websock_nodes-lt os [] s = omega arith
websock_nodes-lt os (node ∷ rest) s =
    let c = System.socket node.family node.socktype node.protocol in
    let a = os.answer s.calls c in
    let t = (call os c s).1 in
    let b = os.answer t.calls (System.connect a.ret node.address) in
    let t' = (call os (System.connect a.ret node.address) t).1 in
    let t'' = (call os (System.close a.ret) t').1 in
    elim (a.ret == minus_one)
      as (λ none_made.
        let r : ℕ × Server =
          if none_made
          then websock_nodes os rest t
          else (if b.ret == minus_one then websock_nodes os rest t'' else (a.ret, t')) in
        r.0 < 2 ^ 32) [
          | true ↦ websock_nodes-lt os rest t
          | false ↦
              elim (b.ret == minus_one)
                as (λ failed.
                  let r : ℕ × Server = if failed then websock_nodes os rest t'' else (a.ret, t') in
                  r.0 < 2 ^ 32) [
                    | true ↦ websock_nodes-lt os rest t''
                    | false ↦ os.ret_lt s.calls c
                  ]
        ]

pub websock_connect-lt :
    (os : Os) (host : List ℕ) (port : ℕ) (s : Server) → (websock_connect os host port s).0 < 2 ^ 32
unfolding websock_connect call
websock_connect-lt os host port s =
    let t = (call os (System.getaddrinfo host port) s).1 in
    let a = os.answer s.calls (System.getaddrinfo host port) in
    let n = websock_nodes os a.addresses t in
    elim (a.ret == 0)
      as (λ b.
        let m : ℕ × Server =
          if b then (n.0, (call os System.freeaddrinfo n.1).1) else (minus_one, t) in
        m.0 < 2 ^ 32) [ true ↦ websock_nodes-lt os a.addresses t | false ↦ omega arith ]
