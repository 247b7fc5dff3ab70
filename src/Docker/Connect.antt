-- ===== src/Docker/Connect.antt =====
-- The line that asks the guest for a port, as the guest reads it.
use spind.Prelude.{[], ap, arith, codes, refl, some, str_eq, true, ℕ, ◌++◌, ◌∙◌, ◌∷◌, ◌≡◌, ◌≤◌}
use spind.Text.Words.{fields, fields-append, fields-nil, no_space, is_space}
use spind.Text.Decimal.{itoa, itoa-no_space, itoa-ne-nil, parse_int-itoa, plus}
use spind.Docker.{connect_line, connect_port, connect_fields, parse_connect_line}

abbrev space : ℕ
space = b' '

abbrev newline : ℕ
newline = b'\n'

is_space-space : is_space space ≡ true
unfolding is_space
is_space-space = refl

is_space-newline : is_space newline ≡ true
unfolding is_space
is_space-newline = refl

command_no_space : no_space (codes "CONNECT") ≡ true
unfolding no_space is_space
command_no_space = refl

host_no_space : no_space (codes "127.0.0.1") ≡ true
unfolding no_space is_space
host_no_space = refl

fields-connect_line :
    (port : ℕ) → fields (connect_line port) ≡ codes "CONNECT" ∷ codes "127.0.0.1" ∷ itoa port ∷ []
unfolding connect_line
fields-connect_line port =
    let port_text = itoa port ++ newline ∷ [] in
    fields-append (codes "CONNECT") (codes "127.0.0.1" ++ (space ∷ port_text)) space (λ e. cc e)
      command_no_space is_space-space
    ∙ ap (λ fs. codes "CONNECT" ∷ fs)
        (fields-append (codes "127.0.0.1") port_text space (λ e. cc e) host_no_space is_space-space
          ∙ ap (λ fs. codes "127.0.0.1" ∷ fs)
              (fields-append (itoa port) [] newline (itoa-ne-nil port) (itoa-no_space port)
                  is_space-newline
                ∙ ap (λ fs. itoa port ∷ fs) fields-nil))

connect_port_lem :
    (port : ℕ) → 1 ≤ port → port ≤ 65535 → connect_port (some (plus port)) ≡ some port
unfolding connect_port
connect_port_lem port low high = ground (arith, low, high)

-- For a port from 1 to 65535 the guest reads exactly that port from the line that the host sends.
pub parse_connect_line-connect_line :
    (port : ℕ)
    → 1 ≤ port
    → port ≤ 65535
    → parse_connect_line (connect_line port) ≡ some (codes "127.0.0.1", port)
unfolding parse_connect_line connect_fields str_eq
parse_connect_line-connect_line port low high =
    rw
      (
        fields-connect_line port,
        parse_int-itoa port (omega (arith, high)),
        connect_port_lem port low high,
      )
      refl
