-- ===== src/Net/Mqtt/Address/Tests.antt =====
-- Targets of the MQTT client, split.
use inkwell.Prelude.{◌≡◌, refl, arith, some, [], ◌∷◌, ◌++◌, ok, err, einval}
use inkwell.Net.Mqtt.Address.{
  index_of, skip_space, decimal_loop, unsigned_at, signed_at, strtoul, port_value, parse_port,
  host_and_port, behind_bracket, bracketed, plain, target_split,
}
use inkwell.Net.Mqtt.Address.Split.{number_of, target_split-digits}

-- "mq:1883"
target_split-digits_example :
    target_split (some ((109 ∷ 113 ∷ []) ++ (58 ∷ 49 ∷ 56 ∷ 56 ∷ 51 ∷ []))) 256
    ≡ ok (109 ∷ 113 ∷ [], number_of 0 (49 ∷ 56 ∷ 56 ∷ 51 ∷ []))
target_split-digits_example =
    target_split-digits 256 (109 ∷ 113 ∷ []) (49 ∷ 56 ∷ 56 ∷ 51 ∷ []) refl (refl, (refl, tt))
      (omega arith) (omega arith) (omega arith) (refl, (refl, (refl, (refl, tt)))) (omega arith)
      (omega arith)

-- "[::1]:80"
bracketed_target :
    target_split (some (91 ∷ 58 ∷ 58 ∷ 49 ∷ 93 ∷ 58 ∷ 56 ∷ 48 ∷ [])) 256
    ≡ ok (58 ∷ 58 ∷ 49 ∷ [], 80)
unfolding index_of skip_space decimal_loop unsigned_at signed_at strtoul port_value parse_port
    host_and_port behind_bracket bracketed plain target_split
bracketed_target = refl

-- A sign and a blank in front of the port: "a:+80" and "a: 80".
signed_port : target_split (some (97 ∷ 58 ∷ 43 ∷ 56 ∷ 48 ∷ [])) 256 ≡ ok (97 ∷ [], 80)
unfolding index_of skip_space decimal_loop unsigned_at signed_at strtoul port_value parse_port
    host_and_port behind_bracket bracketed plain target_split
signed_port = refl

blank_port : target_split (some (97 ∷ 58 ∷ 32 ∷ 56 ∷ 48 ∷ [])) 256 ≡ ok (97 ∷ [], 80)
unfolding index_of skip_space decimal_loop unsigned_at signed_at strtoul port_value parse_port
    host_and_port behind_bracket bracketed plain target_split
blank_port = refl

no_port : target_split (some (97 ∷ 58 ∷ [])) 256 ≡ err einval
unfolding index_of skip_space decimal_loop unsigned_at signed_at strtoul port_value parse_port
    host_and_port behind_bracket bracketed plain target_split
no_port = refl
