-- ===== src/Api/Hosts.antt =====
-- What a client may believe of a host that it got, and what becomes of it when it is reported.
use ylars.Base.{
  ℕ, ◌≤◌, ◌<◌, ◌%◌, ◌≡◌, ◌⊎◌, refl, sym, ap, ◌∙◌, Bool, true, not, List, [], ◌∷◌, ◌++◌, Option,
  none, some, arith, ltb, ◌==◌, ◌||◌, ◌&&◌, if◌then◌else◌, ◌>>=◌, length, Bool-cases, Option-cases,
  inl, inr, length-append,
}
use ylars.Proto.{
  RetCode, succ, noexist, system_error, HostAddr, GetHostResponse, ReportRequest,
  id_get_host_request, id_get_host_response, id_get_route_request, id_report_request,
}
use ylars.Agent.Server.{route_index, server_port}
use ylars.Reactor.Message.Frames.{encode}
use ylars.Api.{
  Protobuf, Inet, YlarsApi, Socket, Host, Done, port, htonl, is_succ, host_entry, answer,
  answer_body, request, unless_stale, await, get_host, get_route, try_route, reg_init, report,
  empty, heard_route,
}
use ylars.Api.Answers.{request_lem}

pub htonl_involutive : (n : ℕ) → n < 4294967296 → htonl (htonl n) ≡ n
unfolding htonl
htonl_involutive n h = omega arith

htonl_word : (n : ℕ) → htonl n < 4294967296
unfolding htonl
htonl_word n = omega arith

abbrev pub reported : ℕ → ℕ → HostAddr → Bool → ReportRequest
reported modid cmdid h ok = record {
  modid = modid;
  cmdid = cmdid;
  host = record { ip = h.ip; port = h.port % 65536 };
  is_succ = ok;
}

-- A host that get_host or get_route handed out, reported over a socket that works, is named in the
-- report as the agent named it, its port in 16 bits, and the report goes to the server that the agent
-- keeps the module in. The address has 32 bits, inet_aton reads what inet_ntoa wrote, and the report
-- fits the client's buffer.
pub report-host_entry :
    (pb : Protobuf) (inet : Inet) (s : Socket) (modid cmdid : ℕ) (h : HostAddr) (ok : Bool)
    (api : YlarsApi)
    → ((n : ℕ) → n < 4294967296 → inet.inet_aton (inet.inet_ntoa n) ≡ some n)
    → h.ip < 4294967296
    → length (pb.report_request (reported modid cmdid h ok)) ≤ 1016
    → s.connects ≡ true
    → s.sends ≡ true
    → report pb inet s modid cmdid (host_entry inet h) ok api
      ≡ some (record {
        ret = tt;
        sent =
            (
              server_port (route_index modid cmdid),
              encode (id_report_request, pb.report_request (reported modid cmdid h ok)),
            )
            ∷ [];
        api = record api { peer = some (server_port (route_index modid cmdid)) };
      })
unfolding report
report-host_entry pb inet s modid cmdid h ok api reads word small up out =
    let p : port modid cmdid ≡ server_port (route_index modid cmdid) = omega arith in
    rw (
      reads (htonl h.ip) (htonl_word h.ip),
      htonl_involutive h.ip word,
      request_lem id_report_request (pb.report_request (reported modid cmdid h ok)) small,
      up,
      out,
      p,
    )

-- Among the datagrams is one that holds this answer.
abbrev pub Heard : Protobuf → GetHostResponse → List (Option (List ℕ)) → Type 0
Heard pb res [] = ⊥
Heard pb res (none ∷ hears) = Heard pb res hears
Heard pb res (some bytes ∷ hears) =
    ((answer_body id_get_host_response bytes >>= pb.parse_host_response) ≡ some res)
    ⊎ Heard pb res hears

await-Heard :
    (pb : Protobuf) (seq : ℕ) (hears : List (Option (List ℕ))) (res : GetHostResponse)
    → await pb seq hears ≡ some (some res)
    → Heard pb res hears
unfolding await
await-Heard pb seq [] res e = ground (arith, e)
await-Heard pb seq (none ∷ hears) res e = ground (arith, e)
await-Heard pb seq (some bytes ∷ hears) res e =
    elim (Option-cases (answer_body id_get_host_response bytes >>= pb.parse_host_response)) [
      | inl f ↦ absurd (ground (arith, sym (ap (unless_stale seq (await pb seq hears)) f) ∙ e))
      | inr (r, f) ↦
          let e' = sym (ap (unless_stale seq (await pb seq hears)) f) ∙ e in
          elim (Bool-cases (ltb r.seq seq)) [
            | inl old ↦ inr (await-Heard pb seq hears res (rw old at e'))
            | inr new ↦ inl (f ∙ ground (arith, e', new))
          ]
    ]

-- The answer to the request of this call, and the host that it names.
abbrev pub IsAnswer : Inet → ℕ → ℕ → ℕ → GetHostResponse → Host → Type 0
IsAnswer inet modid cmdid seq res host =
    (res.seq ≡ seq)
    × (res.modid ≡ modid)
    × (res.cmdid ≡ cmdid)
    × (res.retcode ≡ succ)
    × (host ≡ host_entry inet res.host)

is_succ_lem : (r : RetCode) → is_succ r ≡ true → r ≡ succ
is_succ_lem succ e = refl
is_succ_lem r e = absurd (ground (arith, e))

answer-none :
    (inet : Inet) (modid cmdid seq : ℕ) → answer inet modid cmdid seq none ≡ (system_error, none)
unfolding answer
answer-none inet modid cmdid seq = refl

answer-IsAnswer :
    (inet : Inet) (modid cmdid seq : ℕ) (res : GetHostResponse) (host : Host)
    → (answer inet modid cmdid seq (some res)).1 ≡ some host
    → IsAnswer inet modid cmdid seq res host
unfolding answer
answer-IsAnswer inet modid cmdid seq res host e =
    elim (Bool-cases
      (not (res.seq == seq) || (not (res.modid == modid) || not (res.cmdid == cmdid)))) [
        | inl other ↦ ground (arith, e, other)
        | inr ours ↦ elim (Bool-cases (is_succ res.retcode)) [
          | inr bad ↦ ground (arith, e, ours, bad)
          | inl good ↦ (
            ground (arith, ours),
            ground (arith, ours),
            ground (arith, ours),
            is_succ_lem res.retcode good,
            ground (arith, e, ours, good),
          )
        ]
      ]

-- Where get_host returns a host, one of the datagrams that came holds an answer with the sequence
-- number of this call and its module, RET_SUCC, and that host.
pub get_host-IsAnswer :
    (pb : Protobuf) (inet : Inet) (s : Socket) (modid cmdid : ℕ) (api : YlarsApi)
    {d : Done (RetCode × Option Host)} {host : Host}
    → get_host pb inet s modid cmdid api ≡ some d
    → d.ret.1 ≡ some host
    → (res : GetHostResponse) × Heard pb res s.hears
      × IsAnswer inet modid cmdid api.check_seq res host
unfolding get_host
get_host-IsAnswer pb inet s modid cmdid api {d} {host} ran found = elim (Bool-cases s.connects) [
  | inr down ↦ ground (arith, ran, found, down)
  | inl up ↦
      elim (Option-cases (
        request id_get_host_request
          (pb.host_request (record { seq = api.check_seq; modid = modid; cmdid = cmdid })))) [
            | inl long ↦ ground (arith, ran, up, long)
            | inr (bytes, fits) ↦ elim (Bool-cases s.sends) [
              | inr down ↦ ground (arith, ran, found, up, fits, down)
              | inl out ↦ elim (Option-cases (await pb api.check_seq s.hears)) [
                | inl waiting ↦ ground (arith, ran, up, fits, out, waiting)
                | inr (none, failed) ↦ absurd (
                    ground (
                      arith,
                      ran,
                      found,
                      up,
                      fits,
                      out,
                      failed,
                      answer-none inet modid cmdid api.check_seq,
                    ))
                | inr (some res, got) ↦
                    let e : (answer inet modid cmdid api.check_seq (some res)).1 ≡ some host =
                      ground (arith, ran, found, up, fits, out, got) in
                    (
                      res,
                      await-Heard pb api.check_seq s.hears res got,
                      answer-IsAnswer inet modid cmdid api.check_seq res host e,
                    )
              ]
            ]
          ]
]

-- The hosts that one try of reg_init brings; `none` where it waits for ever.
abbrev pub hosts_of : Protobuf → Inet → Socket → ℕ → ℕ → Option (List Host)
hosts_of pb inet s modid cmdid =
    if s.connects && s.sends then heard_route pb inet modid cmdid s.hears else some []

abbrev pub RouteFits : Protobuf → ℕ → ℕ → Type 0
RouteFits pb modid cmdid =
    length (pb.route_request (record { modid = modid; cmdid = cmdid })) ≤ 1016

get_route-hosts_of :
    (pb : Protobuf) (inet : Inet) (s : Socket) (modid cmdid : ℕ) (api : YlarsApi)
    (hosts : List Host)
    → RouteFits pb modid cmdid
    → hosts_of pb inet s modid cmdid ≡ some hosts
    → (d : Done (List Host)) × (get_route pb inet s modid cmdid [] api ≡ some d)
      × (d.ret ≡ hosts)
      × (length d.sent ≤ 1)
unfolding get_route
get_route-hosts_of pb inet s modid cmdid api hosts fits e =
    let sends =
      request_lem id_get_route_request (pb.route_request (record { modid = modid; cmdid = cmdid }))
        fits in
    elim (Bool-cases s.connects) [
      | inr down ↦
          (record { ret = []; sent = []; api = api }, rw down, ground (arith, e, down), omega arith)
      | inl up ↦ elim (Bool-cases s.sends) [
        | inr mute ↦ (
          record { ret = []; sent = []; api = record api { peer = some (port modid cmdid) } },
          rw (up, sends, mute),
          ground (arith, e, up, mute),
          omega arith,
        )
        | inl out ↦ (
          record {
            ret = hosts;
            sent =
                (
                  port modid cmdid,
                  encode (
                    id_get_route_request,
                    pb.route_request (record { modid = modid; cmdid = cmdid }),
                  ),
                )
                ∷ [];
            api = record api { peer = some (port modid cmdid) };
          },
          (let f = (rw (up, out) at e) in rw (up, sends, out, f)),
          refl,
          omega arith,
        )
      ]
    ]

-- What each try brings.
abbrev pub Brings : Protobuf → Inet → ℕ → ℕ → List Socket → List (List Host) → Type 0
Brings pb inet modid cmdid [] hs = hs ≡ []
Brings pb inet modid cmdid (s ∷ ss) [] = ⊥
Brings pb inet modid cmdid (s ∷ ss) (h ∷ hs) =
    (hosts_of pb inet s modid cmdid ≡ some h) × Brings pb inet modid cmdid ss hs

abbrev pub first_found : List (List Host) → List Host
first_found [] = []
first_found ([] ∷ hs) = first_found hs
first_found ((x ∷ h) ∷ hs) = x ∷ h

try_route_lem :
    (pb : Protobuf) (inet : Inet) (modid cmdid : ℕ) (ss : List Socket) (hs : List (List Host))
    (api : YlarsApi)
    → RouteFits pb modid cmdid
    → Brings pb inet modid cmdid ss hs
    → (d : Done (List Host)) × (try_route pb inet modid cmdid ss [] api ≡ some d)
      × (d.ret ≡ first_found hs)
      × (length d.sent ≤ length ss)
unfolding try_route
try_route_lem pb inet modid cmdid [] hs api fits e =
    (record { ret = []; sent = []; api = api }, refl, rw e, omega arith)
try_route_lem pb inet modid cmdid (s ∷ ss) [] api fits b = absurd b
try_route_lem pb inet modid cmdid (s ∷ ss) ([] ∷ hs) api fits b =
    let (one, ran, e, few) = get_route-hosts_of pb inet s modid cmdid api [] fits b.0 in
    let (more, ran', e', few') = try_route_lem pb inet modid cmdid ss hs one.api fits b.1 in
    (
      record more { sent = one.sent ++ more.sent },
      rw (ran, e, ran'),
      e',
      omega (arith, length-append one.sent more.sent),
    )
try_route_lem pb inet modid cmdid (s ∷ ss) ((x ∷ h) ∷ hs) api fits b =
    let (one, ran, e, few) = get_route-hosts_of pb inet s modid cmdid api (x ∷ h) fits b.0 in
    (one, rw (ran, e), e, omega arith)

-- Where each of three tries is answered or fails, reg_init ends, having sent three requests at most, with
-- RET_SUCC just if one of the tries has brought a host, and RET_NOEXIST if none has.
pub reg_init-first_found :
    (pb : Protobuf) (inet : Inet) (s1 s2 s3 : Socket) (modid cmdid : ℕ) (hs : List (List Host))
    (api : YlarsApi)
    → RouteFits pb modid cmdid
    → Brings pb inet modid cmdid (s1 ∷ s2 ∷ s3 ∷ []) hs
    → (d : Done RetCode) × (reg_init pb inet (s1, s2, s3) modid cmdid api ≡ some d)
      × (d.ret ≡ (if empty (first_found hs) then noexist else succ))
      × (length d.sent ≤ 3)
unfolding reg_init
reg_init-first_found pb inet s1 s2 s3 modid cmdid hs api fits b =
    let (d, ran, e, few) = try_route_lem pb inet modid cmdid (s1 ∷ s2 ∷ s3 ∷ []) hs api fits b in
    (
      record { ret = if empty d.ret then noexist else succ; sent = d.sent; api = d.api },
      rw ran,
      rw e,
      few,
    )
