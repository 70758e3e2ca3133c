-- ===== src/Scripts/Constants.antt =====
-- deploy/mainnet_constants.ts and scripts/utils/constants.ts, with the strings of
-- scripts/utils/shell.ts. An address is the number that its hexadecimal text stands for.
use usdx_v.Base.{ℕ}
use usdx_v.Scripts.Script.{Value, undefined}

abbrev pub kyc_registry : ℕ
kyc_registry = 0x7cE91291846502D50D635163135B2d40a602dc70

abbrev pub usdc_mainnet : ℕ
usdc_mainnet = 0xA0b86991c6218b36c1d19D4a2e9Eb0cE3606eB48

abbrev pub zero_address : ℕ
zero_address = 0x0000000000000000000000000000000000000000

abbrev pub prod_guardian_usdx : ℕ
prod_guardian_usdx = 0x1a694A09494E214a3Be3652e4B343B7B81A73ad7

abbrev pub prod_asset_sender_usdx : ℕ
prod_asset_sender_usdx = 0x5Eb3ac7D9B8220C484307a2506D611Cc759626Ca

abbrev pub prod_fee_recipient_usdx : ℕ
prod_fee_recipient_usdx = 0x1a694A09494E214a3Be3652e4B343B7B81A73ad7

abbrev pub prod_pauser_usdx : ℕ
prod_pauser_usdx = 0x2e55b738F5969Eea10fB67e326BEE5e2fA15A2CC

abbrev pub prod_manager_admin_usdx : ℕ
prod_manager_admin_usdx = 0x1a694A09494E214a3Be3652e4B343B7B81A73ad7

abbrev pub prod_instant_minter_admin_usdx : ℕ
prod_instant_minter_admin_usdx = 0x1a694A09494E214a3Be3652e4B343B7B81A73ad7

abbrev pub prod_kyc_registry : ℕ
prod_kyc_registry = 0x7cE91291846502D50D635163135B2d40a602dc70

abbrev pub prod_oracle : ℕ
prod_oracle = 0xc53e6824480d976180A65415c19A6931D17265BA

abbrev pub sanction_address : ℕ
sanction_address = 0x40c57923924b5c5c5455c48d93317139addac8fb

abbrev pub admin_slot : ℕ
admin_slot = 0xb53127684a568b3173ae13b9f8a6016e243e63b6e8ee1178d6a717850b5d6103

abbrev pub rollback_slot : ℕ
rollback_slot = 0x4910fdfa16fed3260ed0e7147f7cc6da11a60208b5b9406d12a635614ffd9143

abbrev pub implementation_slot : ℕ
implementation_slot = 0x360894a13ba1a3210667c828492db98dca3e2076cc3735a920a3ca505d382bbc

abbrev pub beacon_slot : ℕ
beacon_slot = 0xa3f0ad74e5423aebfd80d3ef4346578335a9a72aeaee59ff6cb3582b35133d50

abbrev pub pending_owner_slot : ℕ
pending_owner_slot = 0x1

-- `mainnet_constants.ts` exports none of these names, which scripts import from it.
abbrev pub prod_guardian_ommf : Value
prod_guardian_ommf = undefined

abbrev pub prod_guardian_xmmf : Value
prod_guardian_xmmf = undefined

abbrev pub prod_xmmf_kyc_group : Value
prod_xmmf_kyc_group = undefined

abbrev pub prod_manager_admin_xmmf : Value
prod_manager_admin_xmmf = undefined
