-- ===== src/MultiHandle/Properties/Dscp.antt =====
-- gst/tcp/gstmultihandlesink.c: gst_multi_handle_sink_setup_dscp_client and setup_dscp. What
-- getsockname answers for a socket is a parameter; setsockopt is the option that it is asked to set.
use pulsevideo.Base.{
  ℕ, ◌≡◌, ◌*◌, ◌%◌, ◌≤◌, ℤ, pos, to_u32, ltb_ℤ, Bool, true, false, if◌then◌else◌, if_cases,
  option_case, option_cases, subst, sym, Option, none, some, List, [], ◌∷◌, map, All, arith,
}
use pulsevideo.MultiHandle.Types.{Client, Sink}

-- The families of addresses that the code tells apart; `mapped` is IN6_IS_ADDR_V4MAPPED.
pub data Family : Type 0 where
  inet : Family
  inet6 : Bool → Family
  other_family : Family

-- The options IP_TOS of IPPROTO_IP and IPV6_TCLASS of IPPROTO_IPV6, and the value.
pub data SocketOption : Type 0 where
  ip_tos : ℕ → SocketOption
  ipv6_tclass : ℕ → SocketOption

-- (qos_dscp & 0x3f) << 2
unfoldable pub tos : ℤ → ℕ
tos qos_dscp = to_u32 qos_dscp % 64 * 4

unfoldable pub family_option : Family → ℕ → Option SocketOption
family_option inet value = some (ip_tos value)
family_option (inet6 mapped) value = some (if mapped then ip_tos value else ipv6_tclass value)
family_option other_family value = none

module _ (getsockname : ℕ → Option Family) where
  -- The option that setup_dscp_client sets on the socket of a client, if it sets one.
  pub setup_dscp_client : Sink → Client → Option SocketOption
  setup_dscp_client s c =
      if ltb_ℤ s.qos_dscp (pos 0)
      then none
      else option_case (getsockname c.handle) none (λ af. family_option af (tos s.qos_dscp))

  -- gst_multi_handle_sink_setup_dscp: the options for the clients, in the order of the list.
  pub setup_dscp : Sink → List (Option SocketOption)
  setup_dscp s = map (setup_dscp_client s) s.clients

option_value : SocketOption → ℕ
option_value (ip_tos v) = v
option_value (ipv6_tclass v) = v

-- An option that holds the code point in the upper six bits of the byte, and none of the two bits of
-- congestion notification.
unfoldable pub Carries : ℕ → Option SocketOption → Type 0
unfolding option_value
Carries dscp none = Unit {0}
Carries dscp (some o) = (option_value o ≡ 4 * dscp) × (option_value o ≤ 252)

family_option-Carries : (af : Family) (n : ℕ) → n ≤ 63 → Carries n (family_option af (tos (pos n)))
unfolding Carries family_option option_value tos to_u32
family_option-Carries inet n h = (omega arith, omega arith)
family_option-Carries (inet6 true) n h = (omega arith, omega arith)
family_option-Carries (inet6 false) n h = (omega arith, omega arith)
family_option-Carries other_family n h = tt

-- For a code point of six bits, every option that setup_dscp sets is the code point shifted past the
-- two bits of congestion notification.
pub setup_dscp-Carries :
    (getsockname : ℕ → Option Family) (s : Sink) (n : ℕ)
    → n ≤ 63
    → s.qos_dscp ≡ pos n
    → All (Carries n) (setup_dscp getsockname s)
unfolding setup_dscp setup_dscp_client Carries
setup_dscp-Carries getsockname s n h e = every s.clients
  where
    one : (c : Client) → Carries n (setup_dscp_client getsockname s c)
    one c =
        if_cases (Carries n) (ltb_ℤ s.qos_dscp (pos 0)) (λ t. tt)
          (λ f.
            option_cases (Carries n) (getsockname c.handle) (λ g. tt)
              (λ af g.
                subst (λ v. Carries n (family_option af (tos v))) (sym e)
                  (family_option-Carries af n h)))

    every : (cs : List Client) → All (Carries n) (map (setup_dscp_client getsockname s) cs)
    every [] = tt
    every (c ∷ cs) = (one c, every cs)
