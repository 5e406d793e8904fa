-- ===== src/Control/Unset.antt =====
-- What the constructor of `IPServerSend` leaves out (servcontrol/include/IPServer.h).
use pxc_prop_strikes_back.Base.{
  ℕ, zero, suc, ◌<◌, ◌≡◌, refl, sym, ap, ◌∙◌, ℤ, pos, true, List, [], ◌∷◌, ◌++◌, some,
  if◌then◌else◌, ◌==◌, eq_int, find, nat_key, get_elem?, length, Bool-cases, Option-cases, inl, inr,
  arith, append-nil, append-last, replicate,
}
use pxc_prop_strikes_back.Control.State.{Conn, Ref, Control, IpServer, sends, ip_server}
use pxc_prop_strikes_back.Control.Addresses.{Addresses, ip_length}
use pxc_prop_strikes_back.Control.IpServer.{
  copy_string, overwrite, has_nul, new_ip_server, answer_each, ip_server_received,
}
use pxc_prop_strikes_back.Control.Waiting.{server_ids}

-- How often an id is there.
abbrev pub count_id : ℤ → List ℤ → ℕ
count_id k [] = 0
count_id k (i ∷ is) = if eq_int i k then suc (count_id k is) else count_id k is

has_nul-copy_string :
    (n : ℕ) (s rest : List ℕ)
    → length s < n
    → has_nul n (copy_string n (s ++ 0 ∷ []) ++ rest) ≡ true
unfolding has_nul copy_string
has_nul-copy_string zero s rest h = absurd (omega arith)
has_nul-copy_string (suc n) [] rest h = refl
has_nul-copy_string (suc n) (b ∷ bs) rest h = elim (Bool-cases (b == 0)) [
  | inl nul ↦ simp nul
  | inr other ↦ simp (other, has_nul-copy_string n bs rest (omega arith))
]

module _ {D : Type 0} where
  answer_each_lem :
      (ps : List Ref) (ids : List ℤ) (k : ℤ) (m : IpServer) (c : Conn) (r : Control D)
      → server_ids ps r.heap ≡ some ids
      → answer_each ps k m c r
        ≡ some
            (record r { events = r.events ++ replicate (count_id k ids) (sends c (ip_server m)) })
  unfolding answer_each
  answer_each_lem [] [] k m c r e =
      ap (λ es. some (record r { events = es })) (sym (append-nil r.events))
  answer_each_lem [] (i ∷ is) k m c r e = absurd (ground arith)
  answer_each_lem (p ∷ ps) ids k m c r e = elim (Option-cases (find p r.heap)) [
    | inl f ↦ absurd (ground arith)
    | inr (s, f) ↦ elim (Option-cases (server_ids ps r.heap)) [
      | inl g ↦ absurd (ground arith)
      | inr (is, g) ↦
          let all : s.id ∷ is ≡ ids = ground arith in
          elim (Bool-cases (eq_int s.id k)) [
            | inr other ↦ rw (f, other, ← all, other) (answer_each_lem ps is k m c r g)
            | inl here ↦
                let r' : Control D = record r { events = r.events ++ sends c (ip_server m) ∷ [] } in
                rw (f, here, ← all, here)
                  (answer_each_lem ps is k m c r' g
                    ∙ ap (λ es. some (record r { events = es }))
                        (append-last r.events (sends c (ip_server m))
                          (replicate (count_id k is) (sends c (ip_server m)))))
          ]
    ]
  ]

  -- The router asks for the address of a game server that is in the table, with an address that fits
  -- in its buffer, and all servers of the list are live: the answers, one for each server of the
  -- list with that id, have an id and a port that nobody has set.
  pub ip_server_received_unset :
      (a : Addresses) (stale : IpServer) (ip_stale port_stale ip port : List ℕ) (ids : List ℤ)
      (k : ℕ) (c : Conn) (r : Control D)
      → get_elem? a.ip_servers k ≡ some ip
      → get_elem? a.port_servers k ≡ some port
      → length ip < ip_length
      → server_ids r.servers r.heap ≡ some ids
      → (t : Control D) × (m : IpServer) × (ip_server_received a stale ip_stale port_stale
            (pos k)
            c
            r
          ≡ some t)
        × (t.events ≡ r.events ++ replicate (count_id (pos k) ids) (sends c (ip_server m)))
        × (m.id ≡ stale.id)
        × (m.port ≡ stale.port)
  unfolding ip_server_received new_ip_server
  ip_server_received_unset a stale ip_stale port_stale ip port ids k c r e f short live =
      let ip_send = overwrite ip_stale (copy_string ip_length (ip ++ 0 ∷ [])) in
      let nul : has_nul ip_length ip_send ≡ true = has_nul-copy_string ip_length ip _ short in
      let m : IpServer = record stale { ip = overwrite stale.ip (copy_string ip_length ip_send) } in
      (
        record r { events = r.events ++ replicate (count_id (pos k) ids) (sends c (ip_server m)) },
        m,
        rw (e, f, nul) (answer_each_lem r.servers ids (pos k) m c r live),
        refl,
        refl,
        refl,
      )
