-- ===== src/Cli.antt =====
-- transport/src/cli.rs and contract-client/src/cli.rs: the arguments of the programs. clap, and the
-- parsers of peer IDs and addresses, are parameters. A text is a list of the codes of its characters.
use subsquid_network.Base.{
  ℕ, Bool, String, Option, none, some, List, [], ◌∷◌, if◌then◌else◌, or_else, Result, ok, err,
}
use subsquid_network.Messages.{PeerId}
use subsquid_network.Addresses.{Multiaddr}
use subsquid_network.DataChunk.{Text}

pub record BootNode : Type 0 where
  pub peer_id : PeerId
  pub address : Multiaddr

-- `char::is_whitespace`, and what other crates parse.
pub record Parsers : Type 0 where
  pub is_whitespace : ℕ → Bool
  pub parse_peer_id : Text → Option PeerId
  pub parse_address : Text → Option Multiaddr

module _ (p : Parsers) where
  abbrev pub close_word : Text → List Text → List Text
  close_word [] words = words
  close_word (c ∷ word) words = (c ∷ word) ∷ words

  -- The first word, if no whitespace comes before it, and the others.
  unfoldable pub words : Text → Text × List Text
  words [] = ([], [])
  words (c ∷ s) =
      let rest = words s in
      if p.is_whitespace c then ([], close_word rest.0 rest.1) else (c ∷ rest.0, rest.1)

  unfoldable pub split_whitespace : Text → List Text
  unfolding words
  split_whitespace s = close_word (words s).0 (words s).1

  abbrev pub require : {A : Type 0} → String → Option A → Result String A
  require message none = err message
  require message (some a) = ok a

  abbrev pub and_then : {A B : Type 0} → Result String A → (A → Result String B) → Result String B
  and_then (err e) f = err e
  and_then (ok a) f = f a

  -- `next()` of the words: the first, and the rest.
  abbrev pub next_word : String → List Text → Result String (Text × List Text)
  next_word message [] = err message
  next_word message (word ∷ words) = ok (word, words)

  -- `FromStr for BootNode`
  unfoldable pub boot_node_of_words : List Text → Result String BootNode
  boot_node_of_words words = and_then (next_word "Boot node peer ID missing" words) λ first.
      and_then (require "Invalid peer ID" (p.parse_peer_id first.0)) λ peer_id.
        and_then (next_word "Boot node address missing" first.1) λ second.
          and_then (require "Invalid address" (p.parse_address second.0))
            λ address. ok (record { peer_id = peer_id; address = address })

  unfoldable pub parse_boot_node : Text → Result String BootNode
  unfolding split_whitespace boot_node_of_words
  parse_boot_node s = boot_node_of_words (split_whitespace s)

pub data Network : Type 0 where
  tethys mainnet : Network

abbrev pub gateway_registry_default_addr : Network → String
gateway_registry_default_addr tethys = "0xAB46F688AbA4FcD1920F21E9BD16B229316D8b0a"
gateway_registry_default_addr mainnet = "0x8A90A1cE5fa8Cf71De9e6f76B7d3c0B72feB8c4b"

abbrev pub worker_registration_default_addr : Network → String
worker_registration_default_addr tethys = "0xCD8e983F8c4202B0085825Cf21833927D1e2b6Dc"
worker_registration_default_addr mainnet = "0x36E2B147Db67E76aB67a4d07C293670EbeFcAE4E"

abbrev pub network_controller_default_addr : Network → String
network_controller_default_addr tethys = "0x68Fc7E375945d8C8dFb0050c337Ff09E962D976D"
network_controller_default_addr mainnet = "0x4cf58097D790B193D22ed633bF8b15c9bc4F0da7"

abbrev pub allocations_viewer_default_addr : Network → String
allocations_viewer_default_addr tethys = "0xC0Af6432947db51e0C179050dAF801F19d40D2B7"
allocations_viewer_default_addr mainnet = "0x88CE6D8D70df9Fe049315fd9D6c3d59108C15c4C"

abbrev pub multicall_default_addr : Network → String
multicall_default_addr network = "0xcA11bde05977b3631167028862bE2a173976CA11"

-- `RpcArgs`, with `ContractAddrs` in it; addresses as they are written.
pub record RpcArgs : Type 0 where
  pub gateway_registry_contract_addr : Option String
  pub worker_registration_contract_addr : Option String
  pub network_controller_contract_addr : Option String
  pub allocations_viewer_contract_addr : Option String
  pub multicall_contract_addr : Option String
  pub network : Network

pub gateway_registry_addr : RpcArgs → String
gateway_registry_addr args =
    or_else args.gateway_registry_contract_addr (gateway_registry_default_addr args.network)

pub worker_registration_addr : RpcArgs → String
worker_registration_addr args =
    or_else args.worker_registration_contract_addr (worker_registration_default_addr args.network)

pub network_controller_addr : RpcArgs → String
network_controller_addr args =
    or_else args.network_controller_contract_addr (network_controller_default_addr args.network)

pub allocations_viewer_addr : RpcArgs → String
allocations_viewer_addr args =
    or_else args.allocations_viewer_contract_addr (allocations_viewer_default_addr args.network)

pub multicall_addr : RpcArgs → String
multicall_addr args = or_else args.multicall_contract_addr (multicall_default_addr args.network)
