-- ===== src/Platform/Windows/Scripts.antt =====
-- wg-kotlin-daemon-rust/daemon/src/platform/windows.rs: the PowerShell scripts.
use wg_kotlin.Base.{[], ◌∷◌}
use wg_kotlin.Text.{Str, codes}
use wg_kotlin.Text.Laws.{join}
use wg_kotlin.Logging.{newline}

abbrev pub set_nrpt_rule_script : Str
set_nrpt_rule_script = join newline (
    codes ""
    ∷ codes "$ErrorActionPreference = 'Stop'"
    ∷ codes "$nameServers = ($env:WG_KOTLIN_DNS_SERVERS -split \"`n\") | Where-Object { $_ -ne '' }"
    ∷ codes
        "$namespaces = ($env:WG_KOTLIN_DNS_NAMESPACES -split \"`n\") | Where-Object { $_ -ne '' }"
    ∷ codes "foreach ($namespace in $namespaces) {"
    ∷ codes
        "    Add-DnsClientNrptRule -Namespace $namespace -NameServers $nameServers -Comment $env:WG_KOTLIN_NRPT_COMMENT"
    ∷ codes "}"
    ∷ codes ""
    ∷ [])

abbrev pub clear_nrpt_rules_script : Str
clear_nrpt_rules_script = join newline (
    codes ""
    ∷ codes "$ErrorActionPreference = 'Stop'"
    ∷ codes
        "Get-DnsClientNrptRule | Where-Object { $_.Comment -eq $env:WG_KOTLIN_NRPT_COMMENT } | Remove-DnsClientNrptRule -Force"
    ∷ codes ""
    ∷ [])

abbrev pub clear_stale_nrpt_rules_script : Str
clear_stale_nrpt_rules_script = join newline (
    codes ""
    ∷ codes "$ErrorActionPreference = 'Stop'"
    ∷ codes "$prefix = [regex]::Escape($env:WG_KOTLIN_NRPT_COMMENT_PREFIX)"
    ∷ codes "foreach ($rule in Get-DnsClientNrptRule) {"
    ∷ codes
        "    if ($rule.Comment -notmatch \"\\A${prefix}([1-9][0-9]*):([0-9]+):utun[0-9]+\\z\") { continue }"
    ∷ codes "    [int]$ownerPid = 0"
    ∷ codes "    [long]$ownerStart = 0"
    ∷ codes
        "    if (-not [int]::TryParse($Matches[1], [ref]$ownerPid) -or -not [long]::TryParse($Matches[2], [ref]$ownerStart)) { continue }"
    ∷ codes "    $owner = $null"
    ∷ codes "    $alive = $false"
    ∷ codes "    try {"
    ∷ codes "        $owner = [System.Diagnostics.Process]::GetProcessById($ownerPid)"
    ∷ codes
        "        $alive = -not $owner.HasExited -and $owner.StartTime.ToFileTimeUtc() -eq $ownerStart"
    ∷ codes "    } catch [System.ArgumentException] {"
    ∷ codes "        # The PID no longer exists."
    ∷ codes "    } catch [System.InvalidOperationException] {"
    ∷ codes "        # The process exited while its identity was being read."
    ∷ codes "    } catch [System.ComponentModel.Win32Exception] {"
    ∷ codes "        # Keep rules when access to their owner's identity is unavailable."
    ∷ codes "        continue"
    ∷ codes "    } finally {"
    ∷ codes "        if ($null -ne $owner) { $owner.Dispose() }"
    ∷ codes "    }"
    ∷ codes "    if (-not $alive) { $rule | Remove-DnsClientNrptRule -Force }"
    ∷ codes "}"
    ∷ codes ""
    ∷ [])
