-- ===== src/Tx.antt =====
-- action-registry.ts of tx: the steps of a transaction plan, and what the builders of plans read. The
-- data of a call is kept as what `encodeFunctionData` is given: the contract's interface, the function
-- and its arguments. A list of arguments of one type is kept with that type.
pub mod Summaries
pub mod Approvals
pub mod Mint
pub mod Recipe
pub mod Claims
pub mod Actions
pub mod Guard
pub mod Deploy
pub mod Auction
mod Examples
use etf.Base.{ℕ, String, Bool, Option, List}
use etf.Base.Dict.{Dict}
use etf.Base.Results.{Result}

-- The struct of a permit, in the order of the interface.
pub record PermitStruct : Type 0 where
  pub value : ℕ
  pub deadline : ℕ
  pub v : ℕ
  pub r : String
  pub s : String

-- A field of a struct; one of the request that is not there is none.
pub data Field : Type 0 where
  addr : Option String → Field
  uint : Option ℕ → Field
  text : String → Field
  addrs : List String → Field
  uints : List ℕ → Field

pub data Arg : Type 0 where
  text : String → Arg
  struct : List (String × Field) → Arg
  addr : String → Arg
  uint : ℕ → Arg
  flag : Bool → Arg
  addrs : List String → Arg
  uints : List ℕ → Arg
  proofs : List (Option (List String)) → Arg
  payloads : List (List String) → Arg
  permits : List PermitStruct → Arg

pub record Call : Type 0 where
  pub abi : String
  pub function_name : String
  pub args : List Arg

pub data StepKind : Type 0 where
  approve call : StepKind

pub record BuiltStep : Type 0 where
  pub kind : StepKind
  pub to : String
  pub data_ : Call
  pub value : String
  pub contract_name : String
  pub label : String
  pub summary : String
  pub needs_prior_approval : Option Bool

-- The typed data of a permit; its types and its primary type are constants.
pub record PermitData : Type 0 where
  pub name : String
  pub version : String
  pub chain_id : ℕ
  pub verifying_contract : String
  pub owner : String
  pub spender : String
  pub value : ℕ
  pub nonce : ℕ
  pub deadline : ℕ

pub record SignStep : Type 0 where
  pub token : String
  pub typed_data : PermitData
  pub label : String
  pub summary : String

pub data PlanStep : Type 0 where
  built : BuiltStep → PlanStep
  sign712 : SignStep → PlanStep

pub record ActionResult : Type 0 where
  pub steps : List PlanStep
  pub finalize : Option String

pub record TokenMeta : Type 0 where
  pub symbol : String
  pub decimals : ℕ

pub record Need : Type 0 where
  pub token : String
  pub amount : ℕ

-- `multicall` of `allowance(account, spender)` on the tokens, in their order; an answer that is not a
-- success is none. `get_many` keys its answers by the token in lower case.
pub record ApprovalDeps : Type 0 where
  pub allowances : String → String → List String → Result (List (Option ℕ))
  pub get_many : List String → Result (Dict TokenMeta)
