-- ===== src/Tests/Tunnels.antt =====
-- A tunnel that answers every call, and the log.
use wg_kotlin.Base.{
  ℕ, suc, ◌≡◌, refl, sym, ap, false, Option, none, some, List, [], ◌∷◌, arith, length, replicate,
  All, ok,
}
use wg_kotlin.Text.{Str, codes}
use wg_kotlin.Protocol.{IpAddr}
use wg_kotlin.Tunnel.{Boring, TunnResult, TunnelSession, create_new_tunnel}
use wg_kotlin.Tunnel.Sessions.{FillsKeys}
use wg_kotlin.Logging.{IsPlain}

abbrev boring : Boring ℕ
boring = record {
  new = λ private public preshared keep_alive index. index;
  encapsulate = λ t src n. some (TunnResult.write_to_network src, suc t);
  decapsulate = λ t ip src n. some (TunnResult.write_to_tunnel_v4 src ip, suc t);
  update_timers = λ t n. some (TunnResult.done, t);
  decode_slice = λ encoded. some (replicate 32 7, 32);
  parse_ip = λ text. some (IpAddr.v4 (192 ∷ 0 ∷ 2 ∷ 1 ∷ []));
}

abbrev alive : TunnelSession ℕ
alive = record { tunnel = 0; poisoned = false }

abbrev third : TunnelSession ℕ
third = record { tunnel = 3; poisoned = false }

abbrev key_text : Str
key_text = codes "BwcHBwcHBwcHBwcHBwcHBwcHBwcHBwcHBwcHBwcHBwc="

abbrev first_key : Option (List ℕ × ℕ) → List ℕ
first_key none = []
first_key (some (key, size)) = key

fills : FillsKeys boring
fills encoded key size h = ap length (sym (ap first_key h))

created : create_new_tunnel boring key_text key_text none 25 3 ≡ ok third
unfolding create_new_tunnel wg_kotlin.Text.len
created = refl

IsPlain-prefix : All IsPlain (codes "1 ")
IsPlain-prefix = (
  (λ e. ground (arith, e), λ e. ground (arith, e)),
  ((λ e. ground (arith, e), λ e. ground (arith, e)), tt),
)
