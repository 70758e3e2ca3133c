-- ===== src/Scripts/Verify/Config.antt =====
-- scripts/usdx/verification-scripts/config.ts: the deployment that the verification tasks expect. A
-- numeral in quotes is the number that it spells: ethers compares it with the text of a BigNumber.
use Prim.Native.String.{String}
use usdx_v.Base.{ℕ, false, List, [], ◌∷◌}
use usdx_v.Roles.{
  default_admin_role, manager_admin, pauser_admin, price_id_setter_role, relayer_role,
  timestamp_setter_role, price_update_role, setter_role, allowlist_admin, allowlist_setter,
  list_configurer_role, burner_role, minter_role, pauser_role,
}
use usdx_v.Scripts.Script.{Value, address, number, bytes32, text, flag}

abbrev pub usdx_proxy_address : ℕ
usdx_proxy_address = 0x96F6eF951840721AdBF46Ac996b59E0235CB985C

abbrev pub usdx_impl_address : ℕ
usdx_impl_address = 0xea0F7EEbDc2Ae40edFE33bf03D332F8A7f617528

abbrev pub usdx_proxy_admin_address : ℕ
usdx_proxy_admin_address = 0x3eD61633057da0Bc58F84b2B9002845E56f94c19

abbrev pub usdx_manager_address : ℕ
usdx_manager_address = 0x25A103A1D6AeC5967c1A4fe2039cdc514886b97e

abbrev pub sanctions_list_address : ℕ
sanctions_list_address = 0x40C57923924B5c5c5455c48D93317139ADDaC8fb

abbrev pub usdx_pricer_address : ℕ
usdx_pricer_address = 0x7fb0228c6338da4EC948Df7b6a8E22aD2Bb2bfB5

abbrev pub blocklist_address : ℕ
blocklist_address = 0xd8c8174691d936E2C80114EC449037b13421B0a8

abbrev pub allowlist_proxy_address : ℕ
allowlist_proxy_address = 0x13300511f43768a30bb2bf10b63B6d502D1F7FE5

abbrev pub allowlist_impl_address : ℕ
allowlist_impl_address = 0x196a4cd6c6A1441A46C5D884DE148Fe6e1E950F7

abbrev pub allowlist_proxy_admin : ℕ
allowlist_proxy_admin = 0xeAa659DC72B39c164cA61B3570044Fd0dcC160Db

abbrev pub zero_address : ℕ
zero_address = 0x0000000000000000000000000000000000000000

abbrev pub usdx_multisig : ℕ
usdx_multisig = 0x1a694A09494E214a3Be3652e4B343B7B81A73ad7

abbrev pub pauser : ℕ
pauser = 0x2e55b738F5969Eea10fB67e326BEE5e2fA15A2CC

abbrev pub usdc_address : ℕ
usdc_address = 0xA0b86991c6218b36c1d19D4a2e9Eb0cE3606eB48

abbrev pub usdx_manager_asset_sender : ℕ
usdx_manager_asset_sender = 0x5Eb3ac7D9B8220C484307a2506D611Cc759626Ca

abbrev pub usdx_manager_asset_recipient : ℕ
usdx_manager_asset_recipient = 0xbDa73A0F13958ee444e0782E1768aB4B76EdaE28

-- `USDX_RWA_ORACLE_RATE_CHECK_ADDRESS`, which is empty
abbrev pub usdx_rwa_oracle_rate_check_address : Value
usdx_rwa_oracle_rate_check_address = text ""

-- The slots and the owner that a proxy is checked for.
pub record ProxyConfig : Type 0 where
  pub proxy_address : ℕ
  pub proxy_admin : ℕ
  pub rollback : ℕ
  pub beacon : ℕ
  pub implementation : ℕ
  pub owner : ℕ

-- A role, and the members that it should have, in order.
pub record RoleConfig : Type 0 where
  pub role : ℕ
  pub members : List ℕ

abbrev pub role_members : (role : ℕ) → List ℕ → RoleConfig
role_members role members = record { role = role; members = members }

-- `USDX_config.USDX`
abbrev pub usdx_proxy : ProxyConfig
usdx_proxy = record {
  proxy_address = usdx_proxy_address;
  proxy_admin = usdx_proxy_admin_address;
  rollback = zero_address;
  beacon = zero_address;
  implementation = usdx_impl_address;
  owner = usdx_multisig;
}

abbrev pub usdx_roles : List RoleConfig
usdx_roles =
    role_members default_admin_role (usdx_multisig ∷ [])
    ∷ role_members burner_role []
    ∷ role_members list_configurer_role (usdx_multisig ∷ [])
    ∷ role_members minter_role (usdx_manager_address ∷ [])
    ∷ role_members pauser_role (usdx_multisig ∷ pauser ∷ [])
    ∷ []

abbrev pub usdx_storage : List (String × Value)
usdx_storage =
    ("DEFAULT_ADMIN_ROLE", bytes32 default_admin_role)
    ∷ ("BURNER_ROLE", bytes32 burner_role)
    ∷ ("LIST_CONFIGURER_ROLE", bytes32 list_configurer_role)
    ∷ ("MINTER_ROLE", bytes32 minter_role)
    ∷ ("PAUSER_ROLE", bytes32 pauser_role)
    ∷ ("decimals", number 18)
    ∷ ("allowlist", address allowlist_proxy_address)
    ∷ ("blocklist", address blocklist_address)
    ∷ ("sanctionsList", address sanctions_list_address)
    ∷ ("name", text "Ondo U.S. Dollar Yield")
    ∷ ("paused", flag false)
    ∷ ("symbol", text "USDX")
    ∷ []

-- `USDX_config.allowlist`
abbrev pub allowlist_proxy : ProxyConfig
allowlist_proxy = record {
  proxy_address = allowlist_proxy_address;
  proxy_admin = allowlist_proxy_admin;
  rollback = zero_address;
  beacon = zero_address;
  implementation = allowlist_impl_address;
  owner = usdx_multisig;
}

abbrev pub allowlist_roles : List RoleConfig
allowlist_roles =
    role_members default_admin_role (usdx_multisig ∷ [])
    ∷ role_members allowlist_setter (usdx_multisig ∷ [])
    ∷ role_members allowlist_admin (usdx_multisig ∷ [])
    ∷ []

abbrev pub allowlist_storage : List (String × Value)
allowlist_storage =
    ("DEFAULT_ADMIN_ROLE", bytes32 default_admin_role)
    ∷ ("ALLOWLIST_SETTER", bytes32 allowlist_setter)
    ∷ ("ALLOWLIST_ADMIN", bytes32 allowlist_admin)
    ∷ ("currentTermIndex", number 0)
    ∷ []

-- `USDX_config.blocklist`
abbrev pub blocklist_storage : List (String × Value)
blocklist_storage =
    ("name", text "Ondo Finance Blocklist Oracle") ∷ ("owner", address usdx_multisig) ∷ []

-- `USDX_config.USDXManager`
abbrev pub manager_storage : List (String × Value)
manager_storage =
    ("BPS_DENOMINATOR", number 10000)
    ∷ ("DEFAULT_ADMIN_ROLE", bytes32 default_admin_role)
    ∷ ("MANAGER_ADMIN", bytes32 manager_admin)
    ∷ ("PAUSER_ADMIN", bytes32 pauser_admin)
    ∷ ("PRICE_ID_SETTER_ROLE", bytes32 price_id_setter_role)
    ∷ ("RELAYER_ROLE", bytes32 relayer_role)
    ∷ ("TIMESTAMP_SETTER_ROLE", bytes32 timestamp_setter_role)
    ∷ ("assetRecipient", address usdx_manager_asset_recipient)
    ∷ ("assetSender", address usdx_manager_asset_sender)
    ∷ ("feeRecipient", address usdx_multisig)
    ∷ ("blocklist", address blocklist_address)
    ∷ ("collateral", address usdc_address)
    ∷ ("rwa", address usdx_proxy_address)
    ∷ ("minimumDepositAmount", number 500000000)
    ∷ ("minimumOffChainRedemptionAmount", number 500000000000000000000)
    ∷ ("minimumRedemptionAmount", number 500000000000000000000)
    ∷ ("mintFee", number 0)
    ∷ ("pricer", address usdx_pricer_address)
    ∷ ("redemptionFee", number 0)
    ∷ ("sanctionsList", address sanctions_list_address)
    ∷ []

abbrev pub manager_roles : List RoleConfig
manager_roles =
    role_members default_admin_role (usdx_multisig ∷ [])
    ∷ role_members manager_admin (usdx_multisig ∷ [])
    ∷ role_members pauser_admin (pauser ∷ [])
    ∷ role_members price_id_setter_role (usdx_multisig ∷ [])
    ∷ role_members relayer_role (usdx_multisig ∷ [])
    ∷ role_members timestamp_setter_role (usdx_multisig ∷ [])
    ∷ []

-- `USDX_config.rwaOracleRateCheck`
abbrev pub rate_check_roles : List RoleConfig
rate_check_roles =
    role_members default_admin_role (usdx_multisig ∷ [])
    ∷ role_members setter_role (usdx_multisig ∷ usdx_pricer_address ∷ [])
    ∷ []

abbrev pub rate_check_data : List (String × Value)
rate_check_data =
    ("MIN_PRICE_UPDATE_WINDOW", number 82800)
    ∷ ("MAX_CHANGE_DIFF_BPS", number 100)
    ∷ ("rwaPrice", number 1000000000000000000)
    ∷ []

-- `USDX_config.USDX_pricer`
abbrev pub pricer_roles : List RoleConfig
pricer_roles =
    role_members default_admin_role (usdx_multisig ∷ [])
    ∷ role_members price_update_role (usdx_multisig ∷ [])
    ∷ []

abbrev pub pricer_storage : List (String × Value)
pricer_storage =
    ("DEFAULT_ADMIN_ROLE", bytes32 default_admin_role)
    ∷ ("PRICE_UPDATE_ROLE", bytes32 price_update_role)
    ∷ []
