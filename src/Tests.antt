-- ===== src/Tests.antt =====
-- Test data, tests, and the theorems at concrete inputs.
mod Samples
mod ConsoleTests
mod PolicyTests
mod ChatTests
mod PanelTests
mod RequestTests
mod AccountsTests
mod ShellTests
mod PagesTests
