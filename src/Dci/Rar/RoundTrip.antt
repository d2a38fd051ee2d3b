-- ===== src/Dci/Rar/RoundTrip.antt =====
-- Unpacking a random access response grant gives back the grant that was packed.
use vbbu.Prelude.{
  ℕ, ◌^◌, ◌≤◌, ◌<◌, ◌≡◌, refl, ap, ◌∙◌, some, List, ◌++◌, length, length-append, drop, arith, true,
  false, Bool, bool_byte, is_set-bool_byte,
}
use vbbu.Bit.{◌>>=◌}
use vbbu.Dci.Msg.{Slot, bits}
use vbbu.Dci.Msg.Facts.{filled, pack-bits, pack-bits_last, length-bits, overlay-filled}
use vbbu.Dci.Rar.{RarGrant, rar_grant_len, rar_slots, rar_grant_pack, rar_grant_unpack}

pub record Fits (rar : RarGrant) : Type 0 where
  pub rba_fits : rar.rba < 2 ^ 10
  pub mcs_fits : rar.trunc_mcs < 2 ^ 4
  pub tpc_fits : rar.tpc_pusch < 2 ^ 3

flag_fits : (b : Bool) → bool_byte b < 2 ^ 1
flag_fits true = omega arith
flag_fits false = omega arith

length-rar_slots : (rar : RarGrant) → length (rar_slots rar) ≡ rar_grant_len
unfolding rar_slots
length-rar_slots rar = simp (length-append, length-bits)

read_slots :
    (rar : RarGrant) (bytes rest : List ℕ)
    → Fits rar
    → rar_grant_unpack (filled (rar_slots rar) bytes ++ rest) ≡ some (rar, rest)
unfolding rar_grant_unpack rar_slots
read_slots rar bytes rest v =
    let c : List Slot = bits (bool_byte rar.cqi_request) 1 in
    let d : List Slot = bits (bool_byte rar.ul_delay) 1 ++ c in
    let t : List Slot = bits rar.tpc_pusch 3 ++ d in
    let m : List Slot = bits rar.trunc_mcs 4 ++ t in
    let r : List Slot = bits rar.rba 10 ++ m in
    let (b1, e1) =
      pack-bits (bool_byte rar.hopping_flag) 1 r bytes rest (omega arith)
        (flag_fits rar.hopping_flag) in
    let (b2, e2) = pack-bits rar.rba 10 m b1 rest (omega arith) v.rba_fits in
    let (b3, e3) = pack-bits rar.trunc_mcs 4 t b2 rest (omega arith) v.mcs_fits in
    let (b4, e4) = pack-bits rar.tpc_pusch 3 d b3 rest (omega arith) v.tpc_fits in
    let (b5, e5) =
      pack-bits (bool_byte rar.ul_delay) 1 c b4 rest (omega arith) (flag_fits rar.ul_delay) in
    let e6 =
      pack-bits_last (bool_byte rar.cqi_request) 1 b5 rest (omega arith)
        (flag_fits rar.cqi_request) in
    rw (e1, ◌>>=◌)
      (rw (e2, ◌>>=◌)
        (rw (e3, ◌>>=◌)
          (rw (e4, ◌>>=◌)
            (rw (e5, ◌>>=◌)
              (rw (e6, ◌>>=◌)
                (rw (is_set-bool_byte rar.hopping_flag) (
                  rw (is_set-bool_byte rar.ul_delay)
                    (rw (is_set-bool_byte rar.cqi_request) refl))))))))

-- A random access response grant whose assignment, scheme and TPC command fit in 10, 4 and 3 bits
-- is packed into a buffer of 20 bytes or more, and unpacking the buffer gives the grant.
pub rar_grant_unpack-rar_grant_pack :
    (rar : RarGrant) (grant : List ℕ)
    → rar_grant_len ≤ length grant
    → Fits rar
    → (grant' : List ℕ) × (rar_grant_pack rar grant ≡ some grant')
      × (rar_grant_unpack grant' ≡ some (rar, drop rar_grant_len grant))
unfolding rar_grant_pack
rar_grant_unpack-rar_grant_pack rar grant room v =
    let size = length-rar_slots rar in
    let rest : List ℕ = drop rar_grant_len grant in
    (
      filled (rar_slots rar) grant ++ rest,
      overlay-filled (rar_slots rar) grant (omega (arith, size))
          ∙ ap (λ (k : ℕ). some (filled (rar_slots rar) grant ++ drop k grant)) size,
      read_slots rar grant rest v,
    )
