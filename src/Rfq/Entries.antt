-- ===== src/Rfq/Entries.antt =====
-- One entry of the queue of wasp-rfq.cc through each operation: what `Sound` says of it before and
-- after.
use dae_proj.Base.{
  ℕ, suc, ◌-◌, ◌≤◌, ◌<◌, ◌≡◌, ◌≢◌, refl, subst, ◌∙◌, List, length, arith, add32, u32_mod,
}
use dae_proj.Rfq.{Rfq, Entry, reserved_entry, with_pending, responded, released}
use dae_proj.Rfq.Inv.{IsLive, Sound, length-zeroed}

IsLive-number : {p m n : ℕ} {e : Entry} → m ≡ n → IsLive p m e → IsLive p n e
IsLive-number {p} {e = e} h l = subst (λ k. IsLive p k e) h l

module _ {width payload next occupancy a : ℕ} {e : Entry} where
  pub Sound-keep :
      next < u32_mod
      → suc occupancy < u32_mod
      → a ≢ occupancy
      → Sound width payload next occupancy a e
      → Sound width payload (add32 next 1) (add32 occupancy 1) a e
  Sound-keep n o ne s = record {
    live = λ h. IsLive-number (omega arith) (s.live (omega arith));
    idle = λ h. s.idle (omega arith);
    lanes = s.lanes;
  }

  pub Sound-released :
      {last : ℕ}
      → occupancy ≤ suc last
      → Sound width payload next occupancy a e
      → Sound width payload next (occupancy - 1) last (released e)
  Sound-released o s = record {
    live = λ h. absurd (omega arith);
    idle = λ h. refl;
    lanes = length-zeroed e.lane_payload ∙ s.lanes;
  }

  pub Sound-advance :
      {b : ℕ}
      → next < u32_mod
      → occupancy < u32_mod
      → a ≡ suc b
      → Sound width payload next occupancy a e
      → Sound width payload next (occupancy - 1) b e
  Sound-advance n o h s = record {
    live = λ p. IsLive-number (omega arith) (s.live (omega arith));
    idle = λ p. s.idle (omega arith);
    lanes = s.lanes;
  }

  -- A live entry may take another payload of the same size.
  pub Sound-payload :
      {xs : List ℕ}
      → length xs ≡ length e.lane_payload
      → Sound width payload next occupancy a e
      → Sound width payload next occupancy a (record e { lane_payload = xs })
  Sound-payload h s = record {
    live = λ p. record {
      busy = (s.live p).busy;
      numbered = (s.live p).numbered;
      words = (s.live p).words;
      settled = (s.live p).settled;
      waiting = (s.live p).waiting;
    };
    idle = s.idle;
    lanes = h ∙ s.lanes;
  }

  pub Sound-with_pending :
      (n : ℕ)
      → a < occupancy
      → Sound width payload next occupancy a e
      → Sound width payload next occupancy a (with_pending e n)
  Sound-with_pending n h s = record {
    live = λ p. record {
      busy = ground arith;
      numbered = (s.live p).numbered;
      words = (s.live p).words;
      settled = λ r. ground arith;
      waiting = λ r. ground arith;
    };
    idle = λ p. absurd (omega arith);
    lanes = s.lanes;
  }

  pub Sound-responded :
      a < occupancy
      → Sound width payload next occupancy a e
      → Sound width payload next occupancy a (responded e).0
  Sound-responded h s =
      let l = s.live h in
      record {
        live = λ p. record {
          busy = ground (arith, l.busy);
          numbered = ground (arith, l.numbered);
          words = ground (arith, l.words);
          settled = λ r. ground (arith, l.settled);
          waiting = λ r. ground (arith, l.waiting);
        };
        idle = λ p. absurd (omega arith);
        lanes = ground (arith, s.lanes);
      }

pub Sound-reserved_entry :
    (q : Rfq) (width mask pending : ℕ) (e : Entry)
    → q.next_sequence < u32_mod
    → suc q.occupancy < u32_mod
    → length e.lane_payload ≡ width
    → Sound width q.payload_words_per_lane
        (add32 q.next_sequence 1)
        (add32 q.occupancy 1)
        q.occupancy
        (reserved_entry q e mask pending)
Sound-reserved_entry q width mask pending e n o h = record {
  live = λ p. record {
    busy = ground arith;
    numbered = omega arith;
    words = refl;
    settled = λ r. ground arith;
    waiting = λ r. ground arith;
  };
  idle = λ p. absurd (omega arith);
  lanes = length-zeroed e.lane_payload ∙ h;
}
