-- ===== src/Link/Invariant.antt =====
-- server/main.c and client/command.c: what every step of the two ends keeps true.
use tsunami_udp.Base.{
  ℕ, ◌<◌, ◌≡◌, refl, ap, sym, subst, ◌∙◌, arith, false, List, [], ◌∷◌, ◌++◌, take, append_assoc,
  inl, inr, All, all_none, all_more, All-append, All-In, In,
}
use tsunami_udp.Blocks.{File}
use tsunami_udp.Blocks.Received.{started-All}
use tsunami_udp.Blocks.Writing.{IsFileBlock}
use tsunami_udp.Link.{
  wire, Link, linked, Gives, bytes_of, IsPart, IsCalm, server_step, client_step, disk_thread_step,
  Reaches, here, step,
}
use tsunami_udp.Link.Pending.{Pending, read-Pending, round-Pending, Pending-Asks}
use tsunami_udp.Message.{Request, request_size}
use tsunami_udp.Receive.{Env, Verdict, again, finished, aborted, exited, asleep, this_block}
use tsunami_udp.Receive.Asking.{Grows, Grows-refl, outcome_by}
use tsunami_udp.Receive.Asking.Rounds.{receive_round-Grows}
use tsunami_udp.Ring.{Datagram, Pthread, take_datagram}
use tsunami_udp.Ring.Queue.{IsWorking}
use tsunami_udp.Server.{Param, Pace, Inbox, Handler, Input, serve_round}
use tsunami_udp.Server.Requests.{IsInbox}
use tsunami_udp.Server.Rounds.{inbox_after, Serving, Serves, serve_round-Serving}
use tsunami_udp.Transfer.{Transfer, net_turn, start_client, started, net_step, disk_step}
use tsunami_udp.Transfer.Delivery.{
  delivered, IsDelivered, IsFair, started-IsDelivered, disk_step-IsDelivered, net_step-IsDelivered,
}
use tsunami_udp.Transfer.Origin.{disk_step-delivered, net_step-delivered}
use tsunami_udp.Wire.{Host}

module _ {R : Type 0} (client : Host) (p : Param) (m : Pace R) where
  module _ (src : File) (v : Serves client p m src) where
    -- The invariant of the two ends.
    pub record IsLinked (l : Link R) : Type 0 where
      pub serving : Serving client p m src l.server.handler.server
      pub transfer : IsDelivered client p.block_count l.transfer
      pub from_file : All (IsFileBlock client p.block_size src) (delivered l.transfer)
      pub pending :
          Pending p.block_count client l.transfer.client.requests l.taken l.server.handler.inbox
      pub part : l.server.handler.inbox.len < request_size

    server_step-IsLinked :
        (l : Link R) (i : Input)
        → Gives client l i.read
        → (IsPart (inbox_after i.read l.server.handler.inbox) → i.report_due ≡ false)
        → IsLinked l
        → IsLinked (record l {
          server = serve_round p m i l.server.handler;
          taken = l.taken ++ bytes_of i.read;
        })
    unfolding serve_round
    server_step-IsLinked l i g calm k =
        let (b, whole) = read-Pending client p m l k.part k.pending i.read g in
        let (pending, part) =
          round-Pending client p m i l.server.handler i.read k.part b whole calm in
        record {
          serving =
              serve_round-Serving client p m src i l.server.handler v
                (Pending-Asks client p m b whole) k.serving;
          transfer = k.transfer;
          from_file = k.from_file;
          pending = pending;
          part = part;
        }

    net_step-Grows :
        (env : Env) (d : Datagram) (t : Transfer) (w : Verdict)
        → IsCalm env
        → 0 < this_block client d
        → IsDelivered client p.block_count t
        → Grows p.block_count t.client.requests (net_step client env d t w).client.requests
    unfolding net_step
    net_step-Grows env d t again calm pos i =
        receive_round-Grows p.block_count v.some_blocks v.small env calm.rate client d t.client
          calm.lossless pos (record { sound = i.sound.0; block_count = i.block_count })
    net_step-Grows env d t finished calm pos i = Grows-refl p.block_count t.client.requests
    net_step-Grows env d t aborted calm pos i = Grows-refl p.block_count t.client.requests
    net_step-Grows env d t exited calm pos i = Grows-refl p.block_count t.client.requests
    net_step-Grows env d t asleep calm pos i = Grows-refl p.block_count t.client.requests

    Grows-Pending :
        {old new : List Request} {taken : List ℕ} {i : Inbox}
        → Grows p.block_count old new
        → Pending p.block_count client old taken i
        → Pending p.block_count client new taken i
    Grows-Pending g a = record {
      past = a.past;
      future = a.future ++ g.more;
      written = g.grown ∙ ap (λ l. l ++ g.more) a.written ∙ append_assoc a.past a.future g.more;
      proper = All-append a.future g.more a.proper g.proper;
      inbox = a.inbox;
      read = a.read;
    }

    client_step-IsLinked :
        (l : Link R) (env : Env) (d : Datagram)
        → IsCalm env
        → In d l.server.handler.server.sent
        → IsLinked l
        → IsLinked (record l { transfer = net_step client env d l.transfer l.transfer.verdict })
    unfolding IsFair
    client_step-IsLinked l env d calm sent k =
        let t = l.transfer in
        let block = All-In k.serving.sent sent in
        let fair : IsFair client (net_turn env d) = (calm.lossless, calm.pthread, block.pos) in
        record {
          serving = k.serving;
          transfer = net_step-IsDelivered client p.block_count env d t t.verdict fair k.transfer;
          from_file =
              elim (net_step-delivered client p.block_count env d t t.verdict fair k.transfer) [
                | inl same ↦
                    subst (All (IsFileBlock client p.block_size src)) (sym same) k.from_file
                | inr more ↦
                    subst (All (IsFileBlock client p.block_size src)) (sym more)
                      (All-append (delivered t) (d ∷ []) k.from_file (all_more block all_none))
              ];
          pending =
              Grows-Pending (net_step-Grows env d t t.verdict calm block.pos k.transfer) k.pending;
          part = k.part;
        }

    disk_step-requests :
        (q : Pthread) (t : Transfer) → (disk_step q t).client.requests ≡ t.client.requests
    unfolding disk_step
    disk_step-requests q t =
        outcome_by (λ (s : Transfer). s.client.requests ≡ t.client.requests)
          (take_datagram q t.client.ring) (λ x. refl) refl refl refl

    disk_step-IsLinked :
        (l : Link R) (q : Pthread)
        → IsWorking q
        → IsLinked l
        → IsLinked (record l { transfer = disk_step q l.transfer })
    disk_step-IsLinked l q works k = record {
      serving = k.serving;
      transfer = disk_step-IsDelivered client p.block_count q l.transfer works k.transfer;
      from_file =
          subst (All (IsFileBlock client p.block_size src))
            (sym (disk_step-delivered client p.block_count q l.transfer works k.transfer))
            k.from_file;
      pending =
          subst (λ rs. Pending p.block_count client rs l.taken l.server.handler.inbox)
            (sym (disk_step-requests q l.transfer)) k.pending;
      part = k.part;
    }

    pub Reaches-IsLinked : {l k : Link R} → IsLinked l → Reaches client p m l k → IsLinked k
    Reaches-IsLinked i here = i
    Reaches-IsLinked i (step {k} r (server_step s goes g calm)) =
        server_step-IsLinked k s g calm (Reaches-IsLinked i r)
    Reaches-IsLinked i (step {k} r (client_step env d calm sent)) =
        client_step-IsLinked k env d calm sent (Reaches-IsLinked i r)
    Reaches-IsLinked i (step {k} r (disk_thread_step q works)) =
        disk_step-IsLinked k q works (Reaches-IsLinked i r)

    pub started-IsLinked :
        (x : Handler R) (w : ℕ) (garbage : ℕ → Datagram)
        → Serving client p m src x.server
        → IsInbox x.inbox
        → x.inbox.len ≡ 0
        → IsLinked (linked x (started (start_client p.block_size p.block_count w garbage)))
    unfolding start_client wire
    started-IsLinked x w garbage s i empty = record {
      serving = s;
      transfer =
          started-IsDelivered client p.block_size p.block_count w garbage (omega (arith, v.small));
      from_file =
          started-All (IsFileBlock client p.block_size src) p.block_size p.block_count w garbage;
      pending = record {
        past = [];
        future = [];
        written = refl;
        proper = all_none;
        inbox = i;
        read = ap (λ k. take k x.inbox.bytes) (sym empty);
      };
      part = omega arith;
    }
